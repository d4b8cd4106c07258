-- ===== src/Tests/Disc.antt =====
-- A small disc: a root directory of one sector with one file, GT2.OVL;1, of six members of two bytes
-- each, and the sample volume at its place.
use gt2_recomp.Prelude.{
  ℕ, Bool, ◌+◌, ◌-◌, ◌*◌, ◌/◌, ◌%◌, ◌<◌, ◌≤◌, ◌≡◌, ◌==◌, true, false, some, List, [], ◌∷◌, arith,
  leb, le→leb, ltb, get_or, if◌then◌else◌,
}
use gt2_recomp.Bytes.{Bytes}
use gt2_recomp.Cd.{File, Cd, sector_ok, file_off, sector_size}
use gt2_recomp.Cd.Pread.{Readable, cooked}
use gt2_recomp.Iso.{IsoEntry}
use gt2_recomp.Bytes.Laws.{IsByte}
use gt2_recomp.Vol.{vol_base, image}
use gt2_recomp.Vol.Source.{src}
use gt2_recomp.Tests.Samples.{extent, get_or-byte}
use gt2_recomp.Ovl.{ovl_name}

-- from byte 1 of the volume descriptor on
abbrev volume_id : List ℕ
volume_id = b'C' ∷ b'D' ∷ b'0' ∷ b'0' ∷ b'1' ∷ []

-- from the root record's extent on
abbrev root_bytes : List ℕ
root_bytes = 17 ∷ 0 ∷ 0 ∷ 0 ∷ 0 ∷ 0 ∷ 0 ∷ 0 ∷ 0 ∷ 8 ∷ 0 ∷ 0 ∷ []

-- the one record
abbrev file_record : List ℕ
file_record =
    (42 ∷ 0 ∷ 18 ∷ 0 ∷ 0 ∷ 0 ∷ 0 ∷ 0 ∷ 0 ∷ 0 ∷ 60 ∷ 0 ∷ 0 ∷ 0 ∷ 0 ∷ 0 ∷ 0 ∷ 0 ∷ 0 ∷ 0 ∷ 0 ∷ 0 ∷ 0
      ∷ 0 ∷ 0 ∷ 0 ∷ 0 ∷ 0 ∷ 0 ∷ 0 ∷ 0 ∷ 0 ∷ 9 ∷ ovl_name)

abbrev words : List ℕ
words = 48 ∷ 2 ∷ 50 ∷ 2 ∷ 52 ∷ 2 ∷ 54 ∷ 2 ∷ 56 ∷ 2 ∷ 58 ∷ 2 ∷ []

abbrev member_bytes : List ℕ
member_bytes = 100 ∷ 101 ∷ 102 ∷ 103 ∷ 104 ∷ 105 ∷ 106 ∷ 107 ∷ 108 ∷ 109 ∷ 110 ∷ 111 ∷ []

-- the container's header words, then the members' bytes
abbrev container : ℕ → ℕ
container k =
    if ltb k 48
    then (if k % 4 == 0 then get_or words (k / 4) 0 else 0)
    else get_or member_bytes (k - 48) 0

abbrev disc_bytes : Bytes
disc_bytes x =
    if ltb x 32769
    then 0
    else if ltb x 32774
    then get_or volume_id (x - 32769) 0
    else if ltb x 32926
    then 0
    else if ltb x 34816
    then get_or root_bytes (x - 32926) 0
    else if ltb x 36864
    then get_or file_record (x - 34816) 0
    else if ltb x vol_base
    then container (x - 36864)
    else get_or extent (x - vol_base) 0

if_small : (b : Bool) (p q : ℕ) → p < 256 → q < 256 → (if b then p else q) < 256
if_small true p q hp hq = hp
if_small false p q hp hq = hq

container_small : (k : ℕ) → container k < 256
container_small k =
    if_small (ltb k 48) _ _
      (if_small (k % 4 == 0) _ _ (get_or-byte words (k / 4) (omega arith)) (omega arith))
      (get_or-byte member_bytes (k - 48) (omega arith))

disc_small : (x : ℕ) → disc_bytes x < 256
disc_small x = if_small (ltb x 32769) _ _ (omega arith) (
    if_small (ltb x 32774) _ _ (get_or-byte volume_id (x - 32769) (omega arith)) (
      if_small (ltb x 32926) _ _ (omega arith) (
        if_small (ltb x 34816) _ _ (get_or-byte root_bytes (x - 32926) (omega arith)) (
          if_small (ltb x 36864) _ _ (get_or-byte file_record (x - 34816) (omega arith)) (
            if_small (ltb x vol_base) _ _ (container_small (x - 36864))
              (get_or-byte extent (x - vol_base) (omega arith)))))))

abbrev pub disc_file : File
disc_file = record {
  at = disc_bytes;
  size = 970752;
  seek_end = true;
  tell = some 970752;
  seek = λ x. true;
}

abbrev pub disc : Cd
disc = record { file = disc_file; raw = false }

pub disc-Readable : (off len : ℕ) → off + len ≤ 970752 → Readable disc off len
unfolding sector_ok
disc-Readable off len w x h k =
    let e : leb (x / sector_size * sector_size + sector_size) 970752 ≡ true =
      le→leb (x / sector_size * sector_size + sector_size) 970752 (omega arith) in
    e

abbrev pub ovl_entry : IsoEntry
ovl_entry = record { extent_lba = 18; size = 60; flags = 0; name = ovl_name }

-- "//gt2.ovl;1"
abbrev pub lower_path : List ℕ
lower_path = b'/' ∷ b'/' ∷ b'g' ∷ b't' ∷ b'2' ∷ b'.' ∷ b'o' ∷ b'v' ∷ b'l' ∷ b';' ∷ b'1' ∷ []

pub disc-IsByte : IsByte (src (image disc))
unfolding src cooked file_off
disc-IsByte = record {
  small =
      λ k. disc_small ((vol_base + k) / sector_size * sector_size + (vol_base + k) % sector_size);
}
