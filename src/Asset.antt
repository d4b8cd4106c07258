-- ===== src/Asset.antt =====
-- The course tables, decomp/src/asset/asset.c: the course-name hash and its map, windows of the volume,
-- the Q2 cache and the CRS records.
pub mod Records
pub mod Windows
use gt2_recomp.Prelude.{
  ℕ, zero, suc, ◌+◌, ◌*◌, ◌/◌, ◌%◌, ◌^◌, ◌-◌, Bool, true, false, ◌&&◌, ◌||◌, not, Option, none,
  some, List, [], ◌∷◌, Outcome, ok, err, ◌>>=◌, ◌>>◌, guard, ltb, leb, ◌==◌, if◌then◌else◌, bit_or,
  take, length, get_elem?, or_err, map,
}
use gt2_recomp.Bytes.{Bytes, le16, le32, u16, u32, sub32, sector_floor}
use gt2_recomp.Vol.{
  Vol, VolStatus, not_found as vol_not_found, vol_base, name_max, file_range, pread,
}
use gt2_recomp.Vol.Walk.{Entry, has_dir, has_end, stat_path, list_dir}

-- gt2_asset_status_t without its OK
pub data AssetStatus : Type 0 where
  inval no_mem io bad_magic truncated nospace not_found : AssetStatus

-- the loop of gt2_crs_hash
unfoldable pub hash_from : ℕ → List ℕ → ℕ
hash_from v [] = v
hash_from v (c ∷ cs) = hash_from (u32 (bit_or (u32 (v * 2 ^ 6)) (v / 2 ^ 26) + c)) cs

-- gt2_crs_hash
unfoldable pub crs_hash : List ℕ → ℕ
crs_hash name = hash_from 0 name

-- name cut at the first '.', at most `n` characters
unfoldable pub stem : ℕ → List ℕ → List ℕ
stem zero name = []
stem (suc n) [] = []
stem (suc n) (c ∷ cs) = let rest = stem n cs in if c == b'.' then [] else c ∷ rest

-- the skip phase of gt2_crsmap_build
unfoldable pub skip_leading : List Entry → List Entry
skip_leading [] = []
skip_leading (e ∷ es) = let rest = skip_leading es in if e.flags % 4 == 1 then rest else e ∷ es

-- the hashes that are stored from the entries on, with `n` stored before
unfoldable pub hash_files : ℕ → ℕ → List Entry → Outcome AssetStatus (List ℕ)
hash_files limit n [] = ok []
hash_files limit n (e ∷ es) =
    let rest = hash_files limit (n + 1) es in
    let hash = crs_hash (stem name_max e.name) in
    if e.flags % 4 == 1
    then ok []
    else if leb limit n
    then err nospace
    else if has_end e.flags
    then ok (hash ∷ [])
    else (do more ← rest; ok (hash ∷ more))

unfoldable pub map_listing : VolStatus → AssetStatus
map_listing vol_not_found = not_found
map_listing e = inval

-- gt2_crsmap_build over the listing: the hashes and the first index
unfoldable pub map_of_listing : ℕ → List Entry → Outcome AssetStatus (List ℕ × ℕ)
map_of_listing limit [] = err truncated
map_of_listing limit (e ∷ es) = do hashes ← hash_files limit 0 (e ∷ es); ok (hashes, e.next)

-- "/crsmap"
abbrev pub crsmap_path : List ℕ
crsmap_path = b'/' ∷ b'c' ∷ b'r' ∷ b's' ∷ b'm' ∷ b'a' ∷ b'p' ∷ []

-- gt2_crsmap_build: the table is its first entries. `granted` says whether malloc succeeds.
unfoldable pub crsmap_build : Vol → ℕ → Bool → Outcome AssetStatus (List ℕ × ℕ)
crsmap_build v limit granted = do
  guard (not (limit == 0)) inval
  guard granted no_mem
  elim (list_dir v crsmap_path).1 [
    | err e ↦ err (map_listing e)
    | ok done ↦ map_of_listing limit (skip_leading (take 12288 (list_dir v crsmap_path).0))
  ]

-- a call of the volume, with every error as one status
unfoldable pub or_status {ℓ} :
    {A : Type ℓ} → AssetStatus → Outcome VolStatus A → Outcome AssetStatus A
or_status e (ok a) = ok a
or_status e (err st) = err e

-- the aligned window of a file of `size` bytes at `off`
unfoldable pub window_of : Vol → Bool → ℕ × ℕ → Outcome AssetStatus (Bytes × ℕ)
window_of v granted (off, size) = do
  let start_exact = sub32 off vol_base
  let end = sector_floor (u32 (start_exact + size))
  guard (leb start_exact end) truncated
  guard granted no_mem
  buf ← or_status io (pread v (u32 (vol_base + sector_floor start_exact)) (end - start_exact))
  ok (buf, end - start_exact)

-- gt2_asset_window: the bytes and their number
unfoldable pub asset_window : Vol → ℕ → Bool → Outcome AssetStatus (Bytes × ℕ)
unfolding window_of
asset_window v tbl_idx granted = do
  range ← or_status inval (file_range v tbl_idx)
  window_of v granted range

-- gt2_asset_window_cached
unfoldable pub asset_window_cached : Vol → List ℕ → ℕ → Bool → Outcome AssetStatus (Bytes × ℕ)
asset_window_cached v cache slot granted = do
  idx ← or_err inval (get_elem? cache slot)
  asset_window v idx granted

-- the index of the second entry of a listing
unfoldable pub second_next : List Entry × Outcome VolStatus (Unit {0}) → ℕ
second_next (e ∷ f ∷ rest, ok done) = u16 f.next
second_next (e ∷ [], ok done) = 0xFFFF
second_next ([], ok done) = 0xFFFF
second_next (es, err st) = 0xFFFF

-- one round of gt2_q2_cache_build
unfoldable pub pin : Vol → Option (List ℕ) → ℕ
pin v none = 0xFFFF
pin v (some []) = 0xFFFF
pin v (some (c ∷ cs)) = elim (stat_path v (c ∷ cs)) [
  | err st ↦ 0xFFFF
  | ok e ↦ if has_dir e.flags then second_next (list_dir v (c ∷ cs)) else u16 e.next
]

-- gt2_q2_cache_build
unfoldable pub q2_cache_build : Vol → List (Option (List ℕ)) → List ℕ
q2_cache_build v paths = map (pin v) paths

-- gt2_crs_rec_t
pub record CrsRec : Type 0 where
  pub off : ℕ
  pub hash : ℕ

abbrev pub crs_rec_stride : ℕ
crs_rec_stride = 0x18

-- record `i` of a window
unfoldable pub crs_rec : Bytes → ℕ → CrsRec
crs_rec data_ptr i =
    let b = u32 (8 + i * crs_rec_stride) in
    record { off = le32 data_ptr b; hash = le32 data_ptr (b + 4) }

-- the `n` records from `i` on
unfoldable pub crs_recs : ℕ → Bytes → ℕ → List CrsRec
crs_recs zero data_ptr i = []
crs_recs (suc n) data_ptr i = crs_rec data_ptr i ∷ crs_recs n data_ptr (i + 1)

-- memcmp with GT2_CRS_MAGIC
unfoldable pub has_magic : Bytes → Bool
has_magic m = m 0 == b'C' && m 1 == b'R' && m 2 == b'S' && m 3 == 0

-- gt2_crsinfo_parse: the records, `limit` at most
unfoldable pub crsinfo_parse : Bytes → ℕ → ℕ → Outcome AssetStatus (List CrsRec)
crsinfo_parse data_ptr len limit = do
  guard (not (limit == 0 || ltb len 8)) inval
  guard (has_magic data_ptr) bad_magic
  let count = le16 data_ptr 6
  guard (leb count ((len - 8) / crs_rec_stride)) truncated
  guard (leb count limit) nospace
  ok (crs_recs count data_ptr 0)

-- the loop of gt2_crs_find from record `i` on; -1 is `none`
unfoldable pub crs_find_from : List CrsRec → ℕ → ℕ → Option ℕ
crs_find_from [] i hash = none
crs_find_from (r ∷ rs) i hash =
    let rest = crs_find_from rs (i + 1) hash in if r.hash == hash then some i else rest

-- gt2_crs_find
unfoldable pub crs_find : List CrsRec → ℕ → Option ℕ
crs_find recs hash = crs_find_from recs 0 hash
