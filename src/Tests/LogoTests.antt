-- ===== src/Tests/LogoTests.antt =====
-- A volume with two car logos, and a table of one car.
use gt2_recomp.Prelude.{
  ℕ, ◌+◌, ◌*◌, ◌-◌, ◌≡◌, refl, true, Option, none, some, Outcome, arith, List, [], ◌∷◌, ok, take,
  ◌==◌, if◌then◌else◌,
}
use gt2_recomp.Bytes.{Bytes, zeros, str_eq}
use gt2_recomp.Vol.{Vol, blob}
use gt2_recomp.Vol.Walk.{list_dir, stat_path}
use gt2_recomp.Car.{CarEntry, CarStatus, skip_dirs, listing_cap, namehash, find}
use gt2_recomp.Car.Tables.{
  wheel_codec, maker_index, maker_from, wheel_class, carlogo, logo_annotate, logo_files, logo_walk,
  logo_round, logo_hit, logo_skipped,
}
use gt2_recomp.Car.Tables.NamedLogos.{Rising}
use gt2_recomp.Car.Tables.Logos.{Annotated, logo_annotate-Annotated}

abbrev logo_name : List ℕ
logo_name = b'A' ∷ b'B' ∷ b'C' ∷ b'D' ∷ b'E' ∷ []

-- carlogo, and its two files
abbrev logos : Vol
logos = record {
  backend = blob zeros 4096;
  data_count = 9;
  entry_count = 3;
  tbl = λ i. 0;
  names = [];
  slots =
      record {
        date = 0;
        next = 1;
        flags = 129;
        name = b'c' ∷ b'a' ∷ b'r' ∷ b'l' ∷ b'o' ∷ b'g' ∷ b'o' ∷ [];
      }
      ∷ record { date = 0; next = 5; flags = 0; name = logo_name }
      ∷ record { date = 0; next = 6; flags = 128; name = logo_name }
      ∷ [];
}

abbrev letter_weights : Bytes
letter_weights c = c - 0x40

abbrev one_car : ℕ → CarEntry
one_car k = record { hash = 0x1083105; index = 3; z = 0 }

one_car-Rising : Rising one_car 1
one_car-Rising = record { rise = λ i j lt top. absurd (omega arith) }

logo_annotate-Annotated_example :
    (res : Outcome CarStatus ℕ × (ℕ → CarEntry)) × (logo_annotate logos letter_weights one_car 1
        true
      ≡ some res)
    × Annotated letter_weights 1
        (skip_dirs (take listing_cap (list_dir logos carlogo).0))
        one_car
        res
logo_annotate-Annotated_example =
    logo_annotate-Annotated logos letter_weights one_car 1 true (omega arith) one_car-Rising

-- maker 1, number 123, class 2, and the last byte
wheel_code :
    wheel_codec
      (some (λ k. if k == 0 then 1 else if k == 2 then b'x' else if k == 3 then b'y' else 0))
      2
      (b'x' ∷ b'y' ∷ b'1' ∷ b'2' ∷ b'3' ∷ b'-' ∷ b'5' ∷ b'z' ∷ [])
    ≡ ((1 * 4096 + 123) * 8 + 2) * 8192 + b'z'
unfolding wheel_codec maker_index maker_from wheel_class
wheel_code = refl

abbrev hits_of : Option (Outcome CarStatus ℕ × (ℕ → CarEntry)) → Option (Outcome CarStatus ℕ)
hits_of none = none
hits_of (some (res, tab)) = some res

one_hit : hits_of (logo_annotate logos letter_weights one_car 1 true) ≡ some (ok 1)
unfolding logo_annotate logo_files logo_walk logo_round logo_hit logo_skipped namehash find
    skip_dirs list_dir stat_path str_eq
one_hit = refl
