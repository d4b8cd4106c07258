-- ===== src/Tests/WalkTests.antt =====
-- Path walks over the sample tree.
use gt2_recomp.Prelude.{
  ℕ, zero, suc, ◌<◌, ◌≡◌, ◌↔◌, refl, true, false, some, ok, err, arith, [], ◌∷◌, drop, get_elem?,
  take,
}
use gt2_recomp.Bytes.{Bytes, zeros, str_eq}
use gt2_recomp.Vol.{Vol, Slot, is_dir, not_found, inval, truncated, read_at, read_abs, file_range}
use gt2_recomp.Vol.Walk.{stat_path, find_path, read_path, list_dir, has_end, is_root}
use gt2_recomp.Vol.Walk.Paths.{Names, stat_path-iff-Names}
use gt2_recomp.Vol.Walk.Files.{ReadsFile, read_path-ReadsFile, read_path-total, read_path-dir}
use gt2_recomp.Vol.Walk.Listing.{numbered, EndsAt, list_dir-Names, list_dir-truncated}
use gt2_recomp.Tests.Samples.{
  tree, tree-FitsImage, path_b, path_d, entry_b, entry_d, name_a, name_b, name_d,
}

stat_b : stat_path tree path_b ≡ ok entry_b
unfolding stat_path str_eq
stat_b = refl

stat_d : stat_path tree path_d ≡ ok entry_d
unfolding stat_path str_eq
stat_d = refl

stat_below_file : stat_path tree (b'A' ∷ b'/' ∷ b'B' ∷ []) ≡ err not_found
unfolding stat_path str_eq
stat_below_file = refl

stat_empty_part : stat_path tree (b'D' ∷ b'/' ∷ b'/' ∷ b'B' ∷ []) ≡ err inval
unfolding stat_path str_eq
stat_empty_part = refl

stat_path-iff-Names_example : (stat_path tree path_b ≡ ok entry_b) ↔ Names tree path_b entry_b
stat_path-iff-Names_example = stat_path-iff-Names tree path_b entry_b

path_b-Names : Names tree path_b entry_b
path_b-Names = (stat_path-iff-Names tree path_b entry_b).0 stat_b

path_d-Names : Names tree path_d entry_d
path_d-Names = (stat_path-iff-Names tree path_d entry_d).0 stat_d

abbrev got_b : Bytes
unfolding read_path find_path stat_path str_eq file_range read_abs read_at
got_b = elim (read_path tree path_b true) [ ok (buf, size) ↦ buf | err e ↦ zeros ]

reads_b : read_path tree path_b true ≡ ok (got_b, 5)
unfolding read_path find_path stat_path str_eq file_range read_abs read_at
reads_b = refl

read_path-ReadsFile_example : ReadsFile tree path_b got_b 5
read_path-ReadsFile_example = read_path-ReadsFile tree path_b true got_b 5 tree-FitsImage reads_b

read_path-total_example : (buf : Bytes) × (size : ℕ) × (read_path tree path_b true ≡ ok (buf, size))
read_path-total_example =
    read_path-total tree path_b entry_b tree-FitsImage path_b-Names refl (omega arith) (omega arith)
      (omega arith)

read_path-dir_here : read_path tree path_d true ≡ err is_dir
read_path-dir_here = read_path-dir tree path_d true entry_d path_d-Names refl

goes_on :
    (j : ℕ) (s : Slot) → j < 1 → get_elem? (drop 2 tree.slots) j ≡ some s → has_end s.flags ≡ false
goes_on zero s h at =
    let same : record { date = 0; next = 3; flags = 0; name = name_b } ≡ s = cc in rw (← same) refl
goes_on (suc j) s h at = absurd (omega arith)

ends_d : EndsAt (drop 2 tree.slots) 1
ends_d = record {
  last = record { date = 0; next = 4; flags = 128; name = name_a };
  is_at = refl;
  ends = refl;
  open_before = goes_on;
}

list_dir-Names_here : list_dir tree path_d ≡ (numbered 2 (take 2 (drop 2 tree.slots)), ok tt)
unfolding is_root
list_dir-Names_here = list_dir-Names tree path_d entry_d 1 refl path_d-Names refl ends_d

-- the same tree, where nothing ends the listing of D
abbrev endless : Vol
endless = record {
  backend = tree.backend;
  data_count = 5;
  entry_count = 3;
  tbl = tree.tbl;
  names = [];
  slots =
      record { date = 0; next = 2; flags = 1; name = name_d }
      ∷ record { date = 0; next = 2; flags = 128; name = name_a }
      ∷ record { date = 0; next = 3; flags = 0; name = name_b }
      ∷ [];
}

endless_d : stat_path endless path_d ≡ ok entry_d
unfolding stat_path str_eq
endless_d = refl

never_ends :
    (j : ℕ) (s : Slot) → get_elem? (drop 2 endless.slots) j ≡ some s → has_end s.flags ≡ false
never_ends zero s at =
    let same : record { date = 0; next = 3; flags = 0; name = name_b } ≡ s = cc in rw (← same) refl
never_ends (suc j) s at = cc

endless_truncated : list_dir endless path_d ≡ (numbered 2 (drop 2 endless.slots), err truncated)
unfolding is_root
endless_truncated =
    list_dir-truncated endless path_d entry_d refl
      ((stat_path-iff-Names endless path_d entry_d).0 endless_d) refl never_ends
