-- ===== src/Tests/IsoTests.antt =====
-- The root directory of the small disc, and the file in it.
use gt2_recomp.Prelude.{ℕ, ◌+◌, ◌*◌, ◌<◌, ◌≡◌, ◌↔◌, refl, true, [], ◌∷◌, ok, err, arith}
use gt2_recomp.Bytes.{Bytes}
use gt2_recomp.Cd.{read_sector, sector_size}
use gt2_recomp.Cd.Pread.{cooked}
use gt2_recomp.Iso.{
  stat, iso_read, root_dir, skip_slashes, not_found, scan_dir, scan_sector, has_slash,
}
use gt2_recomp.Iso.Listed.{InDir}
use gt2_recomp.Iso.Stat.{IsRootName, stat-InDir_iff}
use gt2_recomp.Iso.Files.{iso_read-stat}
use gt2_recomp.Tests.Disc.{disc, disc-Readable, ovl_entry, lower_path}

finds : stat disc lower_path ≡ ok ovl_entry
unfolding stat root_dir scan_dir scan_sector skip_slashes has_slash read_sector
finds = refl

misses : stat disc (b'G' ∷ []) ≡ err not_found
unfolding stat root_dir scan_dir scan_sector skip_slashes has_slash read_sector
misses = refl

nested : stat disc (b'A' ∷ b'/' ∷ b'B' ∷ []) ≡ err not_found
unfolding stat root_dir scan_dir scan_sector skip_slashes has_slash read_sector
nested = refl

stat-InDir_iff_example : (stat disc lower_path ≡ ok ovl_entry) ↔ (
    IsRootName (skip_slashes lower_path)
    × ((root : ℕ × ℕ) × (root_dir disc ≡ ok root)
        × InDir disc (skip_slashes lower_path) ovl_entry root.0 root.1))
stat-InDir_iff_example = stat-InDir_iff disc lower_path ovl_entry

iso_read-stat_example :
    (buf : Bytes) × (iso_read disc lower_path true ≡ ok (buf, 60))
    × ((k : ℕ) → k < 60 → buf k ≡ cooked disc (18 * sector_size + k))
iso_read-stat_example =
    iso_read-stat disc lower_path ovl_entry finds (omega arith) (omega arith)
      (disc-Readable 36864 60 (omega arith))
