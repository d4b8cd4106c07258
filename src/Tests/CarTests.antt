-- ===== src/Tests/CarTests.antt =====
-- The car index over a four-entry table and the sample tree.
use gt2_recomp.Prelude.{
  ℕ, ◌+◌, ◌*◌, ◌^◌, ◌<◌, ◌≡◌, refl, true, Option, none, some, ok, err, arith, List, [], ◌∷◌, ltb,
  take,
}
use gt2_recomp.Bytes.{str_eq, u8}
use gt2_recomp.Vol.Walk.{list_dir, stat_path, is_root}
use gt2_recomp.Car.{
  CarEntry, find, namehash, weight_init, engine_parse, skip_dirs, listing_cap, index_build, inval,
  not_found,
}
use gt2_recomp.Car.Search.{Sorted, Answers, find_sound, find-Answers}
use gt2_recomp.Car.Hash.{SixBits, namehash-lex, lex_ltb, weights_of}
use gt2_recomp.Car.Weights.{weight_init-last, weight_init-SixBits}
use gt2_recomp.Car.Engine.{engine_parse-decimal, decimal}
use gt2_recomp.Car.Index.{Indexed, index_build-Indexed}
use gt2_recomp.Tests.Samples.{tree, name_d, name_a}

-- hashes 10, 20, 30, ...
abbrev tens : ℕ → CarEntry
tens i = record { hash = i * 10 + 10; index = i; z = 0 }

tens-Sorted : Sorted tens 4
tens-Sorted = record { mono = λ i j h lt. omega arith }

finds_third : find tens 4 30 ≡ some (some 2)
unfolding find
finds_third = refl

misses : find tens 4 31 ≡ some none
unfolding find
misses = refl

find-Answers_example : (o : Option ℕ) × (find tens 4 31 ≡ some o) × Answers tens 4 31 o
find-Answers_example = find-Answers tens 4 31 tens-Sorted (omega arith)

find_sound_here : (2 < 4) × ((tens 2).hash ≡ 30)
find_sound_here = find_sound tens 4 30 2 finds_third

-- "-ab": a dash first, as names are padded
abbrev charset : List ℕ
charset = b'-' ∷ b'a' ∷ b'b' ∷ []

charset-SixBits : SixBits (weight_init charset)
charset-SixBits = weight_init-SixBits charset (omega arith)

-- the capital B takes the place of b
capital_last : weight_init charset b'B' ≡ u8 2
capital_last = weight_init-last charset 2 b'B' b'b' refl refl tt

abbrev ab : List ℕ
ab = b'a' ∷ b'b' ∷ []

abbrev ba : List ℕ
ba = b'b' ∷ b'a' ∷ []

namehash-lex_example :
    ltb (namehash (weight_init charset) ab) (namehash (weight_init charset) ba)
    ≡ lex_ltb (weights_of (weight_init charset) ab) (weights_of (weight_init charset) ba)
namehash-lex_example = namehash-lex (weight_init charset) ab ba charset-SixBits

hash_ab : namehash (weight_init charset) ab ≡ 2 ^ 24 + 2 * 2 ^ 18
unfolding namehash weight_init
hash_ab = refl

engine_parse-decimal_here : engine_parse (decimal 1024 (b'x' ∷ [])) ≡ 1024
engine_parse-decimal_here = engine_parse-decimal 1024 (b'x' ∷ []) (omega arith) refl

abbrev built : List CarEntry
unfolding index_build list_dir stat_path str_eq is_root
built = elim (index_build tree name_d (weight_init charset) 8 true) [
  | ok (tab, count) ↦ tab
  | err e ↦ []
]

builds : index_build tree name_d (weight_init charset) 8 true ≡ ok (built, 1)
unfolding index_build list_dir stat_path str_eq is_root
builds = refl

no_directory : index_build tree (b'X' ∷ []) (weight_init charset) 8 true ≡ err not_found
unfolding index_build list_dir stat_path str_eq is_root
no_directory = refl

not_a_directory : index_build tree name_a (weight_init charset) 8 true ≡ err inval
unfolding index_build list_dir stat_path str_eq is_root
not_a_directory = refl

index_build-Indexed_example :
    ((list_dir tree name_d).1 ≡ ok tt)
    × Indexed
        (weight_init charset)
        8
        (skip_dirs (take listing_cap (list_dir tree name_d).0))
        built
        1
index_build-Indexed_example =
    index_build-Indexed tree name_d (weight_init charset) 8 true built 1 builds
