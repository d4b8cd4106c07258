-- ===== src/Asset/Windows.antt =====
-- What gt2_asset_window reads.
use gt2_recomp.Prelude.{
  ℕ, ◌+◌, ◌-◌, ◌<◌, ◌≤◌, ◌≡◌, sym, ap, Bool, some, Outcome, ok, err, arith, leb, >>=-eq-ok, guard,
  guard-eq-ok, ok-injective,
}
use gt2_recomp.Bytes.{Bytes, u32, sub32, sector_floor}
use gt2_recomp.Vol.{Vol, VolStatus, vol_base, file_range, pread, read_abs}
use gt2_recomp.Vol.Source.{src, FitsImage, file_range-ok, read_abs-Window}
use gt2_recomp.Asset.{AssetStatus, inval, truncated, no_mem, io, or_status, window_of, asset_window}

or_status-eq-ok :
    {A : Type 0} (e : AssetStatus) (o : Outcome VolStatus A) {a : A}
    → or_status e o ≡ ok a
    → o ≡ ok a
unfolding or_status
or_status-eq-ok e (ok a) h = ap ok (ok-injective h)
or_status-eq-ok e (err st) h = cc h

-- the window of file `i`: the bytes from its sector on, short of the sector where the next file starts
pub record HoldsWindow (v : Vol) (i : ℕ) (buf : Bytes) (size : ℕ) : Type 0 where
  pub indexed : i < v.data_count
  pub reaches : v.tbl i ≤ sector_floor (v.tbl (i + 1))
  pub sized : size ≡ sector_floor (v.tbl (i + 1)) - v.tbl i
  pub bytes : (k : ℕ) → k < size → buf k ≡ src v.backend (sector_floor (v.tbl i) + k)

pub pread-read_abs :
    (v : Vol) (off len : ℕ) (buf : Bytes)
    → 0 < len
    → pread v off len ≡ ok buf
    → read_abs v off len ≡ some buf
unfolding pread
pread-read_abs v off len buf h e = ground arith

-- the call from the file's range on
window_parts :
    (v : Vol) (off size : ℕ) (granted : Bool) (buf : Bytes) (n : ℕ)
    → window_of v granted (off, size) ≡ ok (buf, n)
    → (sub32 off vol_base ≤ sector_floor (u32 (sub32 off vol_base + size)))
      × (n ≡ sector_floor (u32 (sub32 off vol_base + size)) - sub32 off vol_base)
      × (pread v (u32 (vol_base + sector_floor (sub32 off vol_base))) n ≡ ok buf)
unfolding window_of
window_parts v off size granted buf n h =
    let start = sub32 off vol_base in
    let end = sector_floor (u32 (start + size)) in
    let (u, g, r) = >>=-eq-ok (guard (leb start end) truncated) _ h in
    let (w, m, s) = >>=-eq-ok (guard granted no_mem) _ r in
    let (b, p, e) =
      >>=-eq-ok (or_status io (pread v (u32 (vol_base + sector_floor start)) (end - start)))
        (λ b. ok (b, end - start)) s in
    let pair : (b, end - start) ≡ (buf, n) = ok-injective e in
    let same : b ≡ buf = ap (λ (q : Bytes × ℕ). q.0) pair in
    let len : end - start ≡ n = ap (λ (q : Bytes × ℕ). q.1) pair in
    (
      ground (arith, guard-eq-ok (leb start end) truncated g),
      sym len,
      rw (same, len) at
          (or_status-eq-ok io (pread v (u32 (vol_base + sector_floor start)) (end - start)) p),
    )

-- Where the image fits a u32, what gt2_asset_window returns are the bytes of the volume from the sector of
-- the file's start on, as many as lie between the exact start and the sector where the next file starts.
pub asset_window-HoldsWindow :
    (v : Vol) (i : ℕ) (granted : Bool) (buf : Bytes) (size : ℕ)
    → FitsImage v
    → asset_window v i granted ≡ ok (buf, size)
    → HoldsWindow v i buf size
unfolding asset_window
asset_window-HoldsWindow v i granted buf size fits h =
    let ((off, exact), r, rest) = >>=-eq-ok (or_status inval (file_range v i)) _ h in
    let (idx, ord, o, s) = file_range-ok v i off exact (or_status-eq-ok inval (file_range v i) r) in
    let (reach, n, read) = window_parts v off exact granted buf size rest in
    let top = fits.within (i + 1) (omega arith) in
    let start : sub32 off vol_base ≡ v.tbl i = omega arith in
    let next : u32 (v.tbl i + exact) ≡ v.tbl (i + 1) = omega arith in
    let n' : size ≡ sector_floor (v.tbl (i + 1)) - v.tbl i = rw (start, next) at n in
    let place : u32 (vol_base + sector_floor (v.tbl i)) ≡ vol_base + sector_floor (v.tbl i) =
      omega arith in
    let read' = rw (start, place) at read in
    record {
      indexed = idx;
      reaches = rw (start, next) at reach;
      sized = n';
      bytes = λ k lt.
          read_abs-Window v (sector_floor (v.tbl i)) size buf (omega arith)
            (pread-read_abs v (vol_base + sector_floor (v.tbl i)) size buf (omega arith) read') k
            lt;
    }
