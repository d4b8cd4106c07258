-- ===== src/Tests/CdTests.antt =====
-- Sector reads over a cooked image of two sectors and over a raw one of a single sector.
use gt2_recomp.Prelude.{
  ◌+◌, ◌*◌, ◌/◌, ◌%◌, ◌≡◌, refl, true, some, ok, err, arith, false, leb, le→leb,
}
use gt2_recomp.Bytes.{Bytes, zeros}
use gt2_recomp.Cd.{File, Cd, io, open_cd, sector_ok, sector_size, pread}
use gt2_recomp.Cd.Pread.{Filled, Readable, pread-Filled, pread_sound, pread-err}

abbrev two_sectors : File
two_sectors = record {
  at = λ x. x % 251;
  size = 4096;
  seek_end = true;
  tell = some 4096;
  seek = λ x. true;
}

abbrev raw_file : File
raw_file = record {
  at = λ x. x % 251;
  size = 2352;
  seek_end = true;
  tell = some 2352;
  seek = λ x. true;
}

abbrev cooked_cd : Cd
cooked_cd = record { file = two_sectors; raw = false }

abbrev raw_cd : Cd
raw_cd = record { file = raw_file; raw = true }

opens_cooked : open_cd (some two_sectors) true ≡ ok cooked_cd
unfolding open_cd
opens_cooked = refl

opens_raw : open_cd (some raw_file) true ≡ ok raw_cd
unfolding open_cd
opens_raw = refl

readable : Readable cooked_cd 2040 20
unfolding sector_ok
readable x h k =
    let e : leb (x / sector_size * sector_size + sector_size) 4096 ≡ true =
      le→leb (x / sector_size * sector_size + sector_size) 4096 (omega arith) in
    e

pread-Filled_example :
    (out : Bytes) × (pread cooked_cd 2040 zeros 20 ≡ ok out) × Filled cooked_cd 2040 20 zeros 0 out
pread-Filled_example = pread-Filled cooked_cd 2040 20 zeros (omega arith) readable

-- the eight bytes that end a sector and the four that start the next
abbrev across : Bytes
unfolding pread
across = elim (pread cooked_cd 2044 zeros 8) [ ok out ↦ out | err e ↦ zeros ]

reads_across : pread cooked_cd 2044 zeros 8 ≡ ok across
unfolding pread
reads_across = refl

pread_sound_here : Filled cooked_cd 2044 8 zeros 0 across
pread_sound_here = pread_sound cooked_cd 2044 8 zeros across (omega arith) reads_across

past_end : sector_ok raw_cd (2050 / sector_size) ≡ false
unfolding sector_ok
past_end = refl

pread-err_example : pread raw_cd 2040 zeros 20 ≡ err io
pread-err_example =
    pread-err raw_cd 2040 20 2050 zeros (omega arith) (omega arith) (omega arith) past_end
