-- ===== src/Task/Boot/Booted.antt =====
-- What a boot that succeeds leaves of the volume in its state.
use gt2_recomp.Prelude.{
  ℕ, ◌+◌, ◌*◌, ◌-◌, ◌^◌, ◌<◌, ◌≤◌, ◌≡◌, sym, ap, ◌∙◌, Bool, ◌||◌, not, Option, some, List, Outcome,
  ok, err, guard, >>=-eq-ok, guard-eq-ok, or_err-eq-ok, or_err, ok-injective, arith, ltb, leb,
  length, get_elem?, get_or, Bool-cases, Option-cases, inl, inr,
}
use gt2_recomp.Bytes.{Bytes, copy, le16, sector_floor}
use gt2_recomp.Bytes.Laws.{copy_front}
use gt2_recomp.Vol.{Vol, vol_base, file_range, pread}
use gt2_recomp.Vol.Source.{src, FitsImage, file_range-ok, read_abs-Window}
use gt2_recomp.Car.{CarEntry}
use gt2_recomp.Asset.{
  CrsRec, asset_window, asset_window_cached, crsmap_build, crsinfo_parse, crs_find, inval,
  q2_cache_build,
}
use gt2_recomp.Asset.Windows.{HoldsWindow, asset_window-HoldsWindow, pread-read_abs}
use gt2_recomp.Asset.Records.{FirstRecord, crs_find-FirstRecord}
use gt2_recomp.Vol.Walk.{span}
use gt2_recomp.Task.{
  TaskStatus, inval as task_inval, b2_queue, nospace, no_mem, GatherSrc, B2Req, b2_complete,
}
use gt2_recomp.Task.Boot.{
  mapped, map_asset, map_vol, boot_b2_deposit_max, boot_crs_max, boot_crsmap_max, boot_courses,
  boot_deposit, BootState, boot_rest, boot_run, boot_q2_max, padded, boot_cars, b2_heap_init,
  replay,
}

mapped-eq-ok :
    {E A : Type 0} (f : E → TaskStatus) (o : Outcome E A) {a : A} → mapped f o ≡ ok a → o ≡ ok a
unfolding mapped
mapped-eq-ok f (ok a) h = ap ok (ok-injective h)
mapped-eq-ok f (err e) h = cc h

-- the course window, its records and the lookups in them
pub record HasCourses (v : Vol) (cache : List ℕ) (window : Bytes) (len : ℕ) (recs : List CrsRec)
    : Type 0 where
  pub file : ℕ
  pub cached : get_elem? cache 6 ≡ some file
  pub loaded : HoldsWindow v file window len
  pub few : (le16 window 6 ≤ 256) × (8 + le16 window 6 * 0x18 ≤ len)
  pub finds : (hash : ℕ) → FirstRecord window 0 (le16 window 6) hash (crs_find recs hash)

boot_courses-HasCourses :
    (v : Vol) (cache : List ℕ) (alloc : ℕ → Bool) (crsmap : List ℕ × ℕ) (window : Bytes) (len : ℕ)
    (recs : List CrsRec)
    → FitsImage v
    → boot_courses v cache alloc ≡ ok (crsmap, (window, len), recs)
    → HasCourses v cache window len recs
unfolding boot_courses asset_window_cached
boot_courses-HasCourses v cache alloc crsmap window len recs fits h =
    let (m, a, r1) = >>=-eq-ok (mapped map_asset (crsmap_build v boot_crsmap_max (alloc 2))) _ h in
    let (w, b, r2) = >>=-eq-ok (mapped map_asset (asset_window_cached v cache 6 (alloc 3))) _ r1 in
    let (rs, c, e) =
      >>=-eq-ok (mapped map_asset (crsinfo_parse w.0 w.1 boot_crs_max)) (λ rs. ok (m, w, rs)) r2 in
    let whole : (m, w, rs) ≡ (crsmap, (window, len), recs) = ok-injective e in
    let same_w : w ≡ (window, len) =
      ap (λ (q : (List ℕ × ℕ) × (Bytes × ℕ) × List CrsRec). q.1) whole in
    let same_r : rs ≡ recs = ap (λ (q : (List ℕ × ℕ) × (Bytes × ℕ) × List CrsRec). q.2) whole in
    let b' = mapped-eq-ok map_asset (asset_window_cached v cache 6 (alloc 3)) b ∙ ap ok same_w in
    let c' : crsinfo_parse window len boot_crs_max ≡ ok recs =
      sym (ap (λ (q : Bytes × ℕ). crsinfo_parse q.0 q.1 boot_crs_max) same_w)
      ∙ mapped-eq-ok map_asset (crsinfo_parse w.0 w.1 boot_crs_max) c
      ∙ ap ok same_r in
    let (i, cell, load) =
      >>=-eq-ok (or_err inval (get_elem? cache 6)) (λ i. asset_window v i (alloc 3)) b' in
    let at = or_err-eq-ok inval (get_elem? cache 6) cell in
    let held = asset_window-HoldsWindow v i (alloc 3) window len fits load in
    let inside : i < v.data_count = held.indexed in
    let top : vol_base + v.tbl (i + 1) ≤ 2 ^ 32 - 1 = fits.within (i + 1) (omega (arith, inside)) in
    let sized : len ≡ sector_floor (v.tbl (i + 1)) - v.tbl i = held.sized in
    let small : len < 2 ^ 32 = omega (arith, top, sized) in
    let (bounds, room, found) = crs_find-FirstRecord window len boot_crs_max recs small c' in
    record { file = i; cached = at; loaded = held; few = (room, bounds); finds = found }

-- the deposit holds the first bytes of the requested file
pub record HasDeposit (v : Vol) (i len : ℕ) (deposit : Bytes) : Type 0 where
  pub short : len ≤ 0x9000
  pub whole : v.tbl i + len ≤ v.tbl (i + 1)
  pub bytes : (k : ℕ) → k < len → deposit k ≡ src v.backend (v.tbl i + k)

complete-copy :
    (req : B2Req) (file : Bytes) (size : ℕ) (dst out : Bytes)
    → b2_complete req (some file) size dst ≡ ok out
    → out ≡ copy dst 0 file req.xfer_len
unfolding b2_complete
complete-copy req file size dst out h = ground arith

boot_deposit-HasDeposit :
    (v : Vol) (req : B2Req) (granted : Bool) (dst out : Bytes)
    → FitsImage v
    → boot_deposit v req granted dst ≡ ok out
    → HasDeposit v req.tbl_idx req.xfer_len out
unfolding boot_deposit
boot_deposit-HasDeposit v req granted dst out fits h =
    let ((off, size), a, r1) = >>=-eq-ok (mapped map_vol (file_range v req.tbl_idx)) _ h in
    let (u, g, r2) =
      >>=-eq-ok
        (guard (not (ltb boot_b2_deposit_max req.xfer_len || ltb size req.xfer_len)) nospace) _
        r1 in
    let (w, m, r3) = >>=-eq-ok (guard granted no_mem) _ r2 in
    let (file, p, e) =
      >>=-eq-ok (mapped map_vol (pread v off size)) (λ file. b2_complete req (some file) size dst)
        r3 in
    let (idx, ord, o, s) =
      file_range-ok v req.tbl_idx off size (mapped-eq-ok map_vol (file_range v req.tbl_idx) a) in
    let g' = guard-eq-ok _ nospace g in
    let short : req.xfer_len ≤ 0x9000 = ground (arith, g') in
    let within : req.xfer_len ≤ size = ground (arith, g') in
    let top = fits.within (req.tbl_idx + 1) (omega arith) in
    let place : off ≡ vol_base + v.tbl req.tbl_idx = omega arith in
    let read = rw place at (mapped-eq-ok map_vol (pread v off size) p) in
    record {
      short = short;
      whole = omega arith;
      bytes = λ k lt.
          ap (λ (d : Bytes). d k) (complete-copy req file size dst out e)
          ∙ copy_front dst file req.xfer_len k lt
          ∙ read_abs-Window v (v.tbl req.tbl_idx) size file (omega arith)
              (pread-read_abs v (vol_base + v.tbl req.tbl_idx) size file (omega arith) read) k
              (omega arith);
    }

boot_rest-HasCourses :
    (s : BootState) (v : Vol) (gather : GatherSrc) (cache : List ℕ) (alloc : ℕ → Bool)
    (built : Outcome TaskStatus ((ℕ → CarEntry) × ℕ × ℕ)) (t : BootState)
    → FitsImage v
    → boot_rest s v gather cache alloc built ≡ ok t
    → HasCourses v t.cache t.crs_window t.crs_window_len t.crs_recs
      × HasDeposit v t.b2_req.tbl_idx t.b2_deposit_len t.b2_deposit
unfolding boot_rest
boot_rest-HasCourses s v gather cache alloc built t fits h =
    let (cars, a, r1) = >>=-eq-ok built _ h in
    let (courses, c, r2) = >>=-eq-ok (boot_courses v cache alloc) _ r1 in
    let (queue, q, r3) =
      >>=-eq-ok
        (b2_queue (λ i. get_or cache i 0) boot_q2_max v 473 b2_heap_init
          (some (λ k. s.b2_deposit (0x10 + k))))
        _ r2 in
    let (frames, p, r4) = >>=-eq-ok (mapped map_vol (span v (replay b'0') (replay b'9'))) _ r3 in
    let (deposit, d, e) = >>=-eq-ok (boot_deposit v queue.0 (alloc 4) s.b2_deposit) _ r4 in
    let same = ok-injective e in
    rw (← same) (
      boot_courses-HasCourses v cache alloc courses.0 courses.1.0 courses.1.1 courses.2 fits c,
      boot_deposit-HasDeposit v queue.0 (alloc 4) s.b2_deposit deposit fits d,
    )

-- a run that ends has a table size in range
boot_run-rest :
    (s : BootState) (v : Vol) (weights : Bytes) (gather : GatherSrc)
    (q2paths : List (Option (List ℕ))) (alloc : ℕ → Bool) (t : BootState)
    → boot_run s v weights gather q2paths alloc ≡ some (ok t)
    → (built : Outcome TaskStatus ((ℕ → CarEntry) × ℕ × ℕ)) × (boot_rest s v gather
          (padded boot_q2_max (q2_cache_build v q2paths))
          alloc
          built
        ≡ ok t)
unfolding boot_run
boot_run-rest s v weights gather q2paths alloc t h =
    let bad = ltb boot_q2_max (length q2paths) || leb (length q2paths) 6 in
    elim (Bool-cases bad) [
      | inl refused ↦ absurd (not_ok (rw refused at h))
      | inr good ↦ elim (Option-cases (boot_cars v weights alloc s.cars)) [
        | inl lost ↦ cc (rw (good, lost) at h)
        | inr (built, e) ↦ (built, cc (rw (good, e) at h))
      ]
    ]
  where
    not_ok :
        ¬ (◌≡◌ {A = Option (Outcome TaskStatus BootState)} (some (err task_inval)) (some (ok t)))
    not_ok e = cc e

-- Where the image fits a u32, a boot that succeeds has loaded the CRS window of the file that cell 6 of its
-- cache names, at most 256 records that lie in it, over which the search finds the first record with a
-- hash, and has deposited as much of the requested file as the request says, at most 0x9000 bytes.
pub boot_run-HasCourses :
    (s : BootState) (v : Vol) (weights : Bytes) (gather : GatherSrc)
    (q2paths : List (Option (List ℕ))) (alloc : ℕ → Bool) (t : BootState)
    → FitsImage v
    → boot_run s v weights gather q2paths alloc ≡ some (ok t)
    → HasCourses v t.cache t.crs_window t.crs_window_len t.crs_recs
      × HasDeposit v t.b2_req.tbl_idx t.b2_deposit_len t.b2_deposit
boot_run-HasCourses s v weights gather q2paths alloc t fits h =
    let (built, e) = boot_run-rest s v weights gather q2paths alloc t h in
    boot_rest-HasCourses s v gather (padded boot_q2_max (q2_cache_build v q2paths)) alloc built t
      fits e
