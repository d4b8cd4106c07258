-- ===== src/Task/Boot/Ends.antt =====
-- gt2_task_boot_run ends: the index that it builds is small enough for the searches of the logos.
use gt2_recomp.Prelude.{
  ℕ, ◌^◌, ◌≤◌, ◌≡◌, refl, ◌||◌, Bool, some, Option, List, Outcome, ok, err, ◌>>=◌, ltb, leb, length,
  arith, Bool-cases, Outcome-cases, inl, inr,
}
use gt2_recomp.Bytes.{Bytes}
use gt2_recomp.Vol.{Vol}
use gt2_recomp.Asset.{q2_cache_build}
use gt2_recomp.Car.{CarEntry, index_build}
use gt2_recomp.Car.Index.{index_build-Indexed}
use gt2_recomp.Car.Tables.LogoEnds.{logo_annotate_ends}
use gt2_recomp.Task.{TaskStatus, inval, GatherSrc}
use gt2_recomp.Task.Boot.{
  BootState, boot_cars, boot_q2_max, boot_rest, boot_run, carobj, map_car, mapped, padded,
  stored_cars,
}

boot_cars_ends :
    (v : Vol) (weights : Bytes) (alloc : ℕ → Bool) (old : ℕ → CarEntry)
    → (res : Outcome TaskStatus ((ℕ → CarEntry) × ℕ × ℕ)) × (boot_cars v weights alloc old
        ≡ some res)
unfolding boot_cars
boot_cars_ends v weights alloc old =
    elim (Outcome-cases (index_build v carobj weights 2049 (alloc 0))) [
      | inr (st, bad) ↦ (err (map_car st), rw (bad, boot_cars) refl)
      | inl ((entries, count), good) ↦
          let (listed, made) =
            index_build-Indexed v carobj weights 2049 (alloc 0) entries count good in
          let small : count ≤ 2 ^ 31 = omega (arith, made.fits) in
          let (res, e) =
            logo_annotate_ends weights count small v (stored_cars entries old) (alloc 1) in
          ((do hits ← mapped map_car res.0; ok (res.1, count, hits)), rw (good, boot_cars, e) refl)
    ]

-- gt2_task_boot_run returns a state or a status, whatever the state before, the volume, the weights, the
-- paths and the memory that is granted.
pub boot_run_ends :
    (s : BootState) (v : Vol) (weights : Bytes) (gather : GatherSrc)
    (q2paths : List (Option (List ℕ))) (alloc : ℕ → Bool)
    → (res : Outcome TaskStatus BootState) × (boot_run s v weights gather q2paths alloc ≡ some res)
unfolding boot_run
boot_run_ends s v weights gather q2paths alloc =
    elim (Bool-cases (ltb boot_q2_max (length q2paths) || leb (length q2paths) 6)) [
      | inl refused ↦ (err inval, rw refused refl)
      | inr good ↦
          let (built, e) = boot_cars_ends v weights alloc s.cars in
          (
            boot_rest s v gather (padded boot_q2_max (q2_cache_build v q2paths)) alloc built,
            rw (good, e) refl,
          )
    ]
