-- ===== src/Tests/AssetTests.antt =====
-- A CRS window of two records, and a volume with a file that crosses a sector.
use gt2_recomp.Prelude.{
  ℕ, ◌+◌, ◌-◌, ◌*◌, ◌%◌, ◌^◌, ◌≤◌, ◌≡◌, refl, true, some, ok, err, List, [], ◌∷◌, arith, ◌==◌,
  if◌then◌else◌, get_or, leb,
}
use gt2_recomp.Bytes.{Bytes, zeros, le16}
use gt2_recomp.Vol.{Vol, blob, vol_base, file_range, pread, read_abs, read_at}
use gt2_recomp.Vol.Source.{FitsImage}
use gt2_recomp.Asset.{
  CrsRec, crs_hash, hash_from, stem, crs_rec, crs_recs, has_magic, crsinfo_parse, crs_find,
  crs_find_from, asset_window, window_of, or_status,
}
use gt2_recomp.Asset.Records.{FirstRecord, crs_find-FirstRecord}
use gt2_recomp.Asset.Windows.{HoldsWindow, asset_window-HoldsWindow}

abbrev crs_bytes : Bytes
crs_bytes k = get_or (b'C' ∷ b'R' ∷ b'S' ∷ 0 ∷ 0 ∷ 0 ∷ 2 ∷ 0 ∷ 9 ∷ 0 ∷ 0 ∷ 0 ∷ 7 ∷ []) k 0

abbrev two_recs : List CrsRec
unfolding crs_recs crs_rec
two_recs = crs_recs 2 crs_bytes 0

parses : crsinfo_parse crs_bytes 56 8 ≡ ok two_recs
unfolding crsinfo_parse has_magic crs_recs crs_rec
parses = refl

crs_find-FirstRecord_example :
    (8 + le16 crs_bytes 6 * 0x18 ≤ 56)
    × (le16 crs_bytes 6 ≤ 8)
    × ((hash : ℕ) → FirstRecord crs_bytes 0 (le16 crs_bytes 6) hash (crs_find two_recs hash))
crs_find-FirstRecord_example = crs_find-FirstRecord crs_bytes 56 8 two_recs (omega arith) parses

finds : crs_find two_recs 7 ≡ some 0
unfolding crs_find crs_find_from two_recs
finds = refl

hashes : crs_hash (stem 25 (b'A' ∷ b'B' ∷ b'.' ∷ b'C' ∷ [])) ≡ 0x41 * 64 + 0x42
unfolding crs_hash hash_from stem
hashes = refl

-- file 2 is [64, 4100)
abbrev crossing : Vol
crossing = record {
  backend = blob (λ k. k % 251) 8192;
  data_count = 4;
  entry_count = 0;
  tbl = λ i. if leb i 1 then 0 else if i == 2 then 64 else 4100;
  names = [];
  slots = [];
}

crossing_fits : (i : ℕ) → i ≤ 4 → vol_base + crossing.tbl i ≤ 2 ^ 32 - 1
crossing_fits i h = ground arith

crossing-FitsImage : FitsImage crossing
crossing-FitsImage = record { within = crossing_fits }

abbrev window : Bytes
unfolding asset_window
window = elim (asset_window crossing 2 true) [ ok (buf, size) ↦ buf | err e ↦ zeros ]

loads : asset_window crossing 2 true ≡ ok (window, 4032)
unfolding asset_window window_of or_status file_range pread read_abs read_at
loads = refl

asset_window-HoldsWindow_here : HoldsWindow crossing 2 window 4032
asset_window-HoldsWindow_here =
    asset_window-HoldsWindow crossing 2 true window 4032 crossing-FitsImage loads
