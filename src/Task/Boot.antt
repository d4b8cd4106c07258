-- ===== src/Task/Boot.antt =====
-- gt2_task_boot_run of decomp/src/task/task.c: the boot tasks one after the other over a volume.
pub mod Booted
pub mod Ends
use gt2_recomp.Prelude.{
  ℕ, zero, suc, ◌+◌, ◌*◌, ◌-◌, ◌^◌, Bool, true, false, ◌||◌, not, Option, none, some, List, [], ◌∷◌,
  ◌++◌, Outcome, ok, err, ◌>>=◌, ◌>>◌, guard, ltb, leb, ◌==◌, if◌then◌else◌, length, get_elem?,
  get_or,
}
use gt2_recomp.Bytes.{Bytes, fill, write, put_u16, put_u32}
use gt2_recomp.Vol.{
  Vol, VolStatus, io as vol_io, no_mem as vol_no_mem, not_found as vol_not_found,
  truncated as vol_truncated, file_range, pread,
}
use gt2_recomp.Vol.Walk.{span}
use gt2_recomp.Car.{
  CarStatus, CarEntry, nospace as car_nospace, not_found as car_not_found,
  truncated as car_truncated, index_build,
}
use gt2_recomp.Car.Tables.{logo_annotate}
use gt2_recomp.Asset.{
  AssetStatus, no_mem as asset_no_mem, io as asset_io, bad_magic as asset_bad_magic,
  truncated as asset_truncated, nospace as asset_nospace, not_found as asset_not_found, CrsRec,
  q2_cache_build, crsmap_build, asset_window_cached, crsinfo_parse,
}
use gt2_recomp.Task.{
  TaskStatus, inval, no_mem, io, not_found, nospace, truncated, bad_data, GatherSrc, B2Req, b3,
  b2_queue, b2_complete,
}

-- the area that gt2_task_b4 clears, and its bounds as half words
unfoldable pub b4 : Bytes → Bytes × ℕ × ℕ
b4 dst = (fill dst 0 0 0x40, 2 ^ 16 - 0x40, 0x40)

-- the cell of gt2_task_b5
abbrev pub b5 : ℕ
b5 = 0x60

-- gt2_task_b6
unfoldable pub b6 : Bytes → Bytes
b6 p =
    let cleared = write (write (write p 2 0) 1 0) 0 0 in
    write (put_u16 (put_u16 (put_u32 cleared 8 0) 0xC 0xFFFF) 0xE 0) 0x10 0

unfoldable pub map_car : CarStatus → TaskStatus
map_car car_nospace = nospace
map_car car_not_found = not_found
map_car car_truncated = truncated
map_car e = inval

unfoldable pub map_asset : AssetStatus → TaskStatus
map_asset asset_no_mem = no_mem
map_asset asset_io = io
map_asset asset_bad_magic = bad_data
map_asset asset_truncated = truncated
map_asset asset_nospace = nospace
map_asset asset_not_found = not_found
map_asset e = inval

unfoldable pub map_vol : VolStatus → TaskStatus
map_vol vol_io = io
map_vol vol_no_mem = no_mem
map_vol vol_not_found = not_found
map_vol vol_truncated = truncated
map_vol e = inval

-- a call whose status is mapped
unfoldable pub mapped {ℓ} :
    {E : Type 0} {A : Type ℓ} → (E → TaskStatus) → Outcome E A → Outcome TaskStatus A
mapped f (ok a) = ok a
mapped f (err e) = err (f e)

abbrev pub boot_q2_max : ℕ
boot_q2_max = 248

abbrev pub boot_crsmap_max : ℕ
boot_crsmap_max = 256

abbrev pub boot_crs_max : ℕ
boot_crs_max = 256

abbrev pub boot_b2_deposit_max : ℕ
boot_b2_deposit_max = 0x9000

abbrev pub b2_heap_init : ℕ
b2_heap_init = 4112

-- gt2_boot_state_t; the descriptor repeats words of the request
pub record BootState : Type 0 where
  pub cars : ℕ → CarEntry
  pub car_count : ℕ
  pub logo_hits : ℕ
  pub crsmap : List ℕ
  pub crsmap_first : ℕ
  pub cache : List ℕ
  pub crs_window : Bytes
  pub crs_window_len : ℕ
  pub crs_recs : List CrsRec
  pub task_mem : Bytes
  pub b4_area : Bytes
  pub bounds : ℕ × ℕ
  pub flag_cell : ℕ
  pub s6_area : Bytes
  pub span : ℕ
  pub b2_heap : ℕ
  pub b2_req : B2Req
  pub b2_deposit : Bytes
  pub b2_deposit_len : ℕ

-- the cache with the miss mark in the cells past the paths
unfoldable pub padded : ℕ → List ℕ → List ℕ
padded zero cache = cache
padded (suc n) [] = 0xFFFF ∷ padded n []
padded (suc n) (c ∷ cs) = c ∷ padded n cs

-- the entries that a build stored, over what the table held
unfoldable pub stored_cars : List CarEntry → (ℕ → CarEntry) → ℕ → CarEntry
stored_cars entries old k = elim (get_elem? entries k) [ some e ↦ e | none ↦ old k ]

-- "/carobj"
abbrev pub carobj : List ℕ
carobj = b'/' ∷ b'c' ∷ b'a' ∷ b'r' ∷ b'o' ∷ b'b' ∷ b'j' ∷ []

-- "/replay/scea.000" and "/replay/scea.999"
abbrev pub replay : ℕ → List ℕ
replay c =
    b'/' ∷ b'r' ∷ b'e' ∷ b'p' ∷ b'l' ∷ b'a' ∷ b'y' ∷ b'/' ∷ b's' ∷ b'c' ∷ b'e' ∷ b'a' ∷ b'.' ∷ c ∷ c
    ∷ c ∷ []

-- b0: the car table with its logos, the number of cars and of hits; `none` if a search of the logos
-- does not end
unfoldable pub boot_cars :
    Vol → Bytes → (ℕ → Bool) → (ℕ → CarEntry) → Option (Outcome TaskStatus ((ℕ → CarEntry) × ℕ × ℕ))
boot_cars v weights alloc old = elim (index_build v carobj weights 2049 (alloc 0)) [
  | err e ↦ some (err (map_car e))
  | ok (entries, count) ↦ elim (logo_annotate v weights (stored_cars entries old) count (alloc 1)) [
    | none ↦ none
    | some annotated ↦ some (do hits ← mapped map_car annotated.0; ok (annotated.1, count, hits))
  ]
]

-- b1: the map with its first index, the window with its length, and the records
unfoldable pub boot_courses :
    Vol → List ℕ → (ℕ → Bool) → Outcome TaskStatus ((List ℕ × ℕ) × (Bytes × ℕ) × List CrsRec)
boot_courses v cache alloc = do
  crsmap ← mapped map_asset (crsmap_build v boot_crsmap_max (alloc 2))
  window ← mapped map_asset (asset_window_cached v cache 6 (alloc 3))
  recs ← mapped map_asset (crsinfo_parse window.0 window.1 boot_crs_max)
  ok (crsmap, window, recs)

-- the completion of b2: the deposit
unfoldable pub boot_deposit : Vol → B2Req → Bool → Bytes → Outcome TaskStatus Bytes
boot_deposit v req granted deposit = do
  (off, size) ← mapped map_vol (file_range v req.tbl_idx)
  guard (not (ltb boot_b2_deposit_max req.xfer_len || ltb size req.xfer_len)) nospace
  guard granted no_mem
  file ← mapped map_vol (pread v off size)
  b2_complete req (some file) size deposit

-- gt2_task_boot_run from b1 on
unfoldable pub boot_rest :
    BootState
    → Vol
    → GatherSrc
    → List ℕ
    → (ℕ → Bool)
    → Outcome TaskStatus ((ℕ → CarEntry) × ℕ × ℕ)
    → Outcome TaskStatus BootState
boot_rest s v gather cache alloc built = do
  cars ← built
  courses ← boot_courses v cache alloc
  queue ←
      b2_queue (λ i. get_or cache i 0) boot_q2_max v 473 b2_heap_init
        (some (λ k. s.b2_deposit (0x10 + k)))
  frames ← mapped map_vol (span v (replay b'0') (replay b'9'))
  deposit ← boot_deposit v queue.0 (alloc 4) s.b2_deposit
  ok (record {
    cars = cars.0;
    car_count = cars.1;
    logo_hits = cars.2;
    crsmap = courses.0.0;
    crsmap_first = courses.0.1;
    cache = cache;
    crs_window = courses.1.0;
    crs_window_len = courses.1.1;
    crs_recs = courses.2;
    task_mem = b3 s.task_mem gather (length courses.2);
    b4_area = (b4 s.b4_area).0;
    bounds = ((b4 s.b4_area).1, (b4 s.b4_area).2);
    flag_cell = b5;
    s6_area = b6 s.s6_area;
    span = frames;
    b2_heap = queue.1;
    b2_req = queue.0;
    b2_deposit = deposit;
    b2_deposit_len = queue.0.xfer_len;
  })

-- gt2_task_boot_run: the state where it succeeds. `alloc n` says whether its n-th allocation does.
unfoldable pub boot_run :
    BootState
    → Vol
    → Bytes
    → GatherSrc
    → List (Option (List ℕ))
    → (ℕ → Bool)
    → Option (Outcome TaskStatus BootState)
unfolding boot_rest
boot_run s v weights gather q2paths alloc =
    let cache = padded boot_q2_max (q2_cache_build v q2paths) in
    if ltb boot_q2_max (length q2paths) || leb (length q2paths) 6
    then some (err inval)
    else elim (boot_cars v weights alloc s.cars) [
      | none ↦ none
      | some cars ↦ some (boot_rest s v gather cache alloc cars)
    ]
