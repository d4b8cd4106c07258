-- ===== src/Car/Tables/LogoEnds.antt =====
-- gt2_car_logo_annotate ends on every table of at most 2 ^ 31 entries, since each of its searches does.
use gt2_recomp.Prelude.{
  ℕ, ◌^◌, ◌≤◌, ◌≡◌, refl, Bool, some, List, [], ◌∷◌, ok, err, ◌==◌, Bool-cases, Outcome-cases, inl,
  inr, take,
}
use gt2_recomp.Bytes.{Bytes, u16}
use gt2_recomp.Vol.{Vol}
use gt2_recomp.Vol.Walk.{Entry, has_end, list_dir}
use gt2_recomp.Car.{
  CarEntry, inval, nospace, truncated, map_listing, namehash, skip_dirs, listing_cap,
}
use gt2_recomp.Car.Search.{find_ends}
use gt2_recomp.Car.Tables.{
  Annotation, logo_skipped, logo_hit, logo_round, logo_walk, backfilled, logo_files, carlogo,
  logo_annotate,
}

module _ (weights : Bytes) (count : ℕ) (small : count ≤ 2 ^ 31) where
  logo_round_ends :
      (e : Entry) (tab : ℕ → CarEntry) (hits : ℕ)
      → (after : (ℕ → CarEntry) × ℕ) × (logo_round weights count e (tab, hits) ≡ some after)
  unfolding logo_round
  logo_round_ends e tab hits = elim (Bool-cases (logo_skipped e.name)) [
    | inl skipped ↦ ((tab, hits), rw skipped refl)
    | inr shown ↦
        let (o, found) = find_ends tab count (namehash weights e.name) small in
        (logo_hit e (tab, hits) o, rw (shown, found) refl)
  ]

  logo_walk_ends :
      (files : List Entry) (tab : ℕ → CarEntry) (hits : ℕ)
      → (res : Annotation) × (logo_walk weights count files (tab, hits) ≡ some res)
  unfolding logo_walk
  logo_walk_ends [] tab hits = ((ok hits, tab), refl)
  logo_walk_ends (e ∷ []) tab hits = ((err truncated, tab), refl)
  logo_walk_ends (e ∷ f ∷ rest) tab hits =
      let (after, round) = logo_round_ends e tab hits in
      elim (Bool-cases (has_end f.flags)) [
        | inl end ↦ ((ok after.1, after.0), rw (round, logo_walk, end) refl)
        | inr on ↦
            let (res, walk) = logo_walk_ends rest after.0 after.1 in
            (res, rw (round, logo_walk, on) walk)
      ]

  logo_files_ends :
      (files : List Entry) (tab : ℕ → CarEntry)
      → (res : Annotation) × (logo_files weights count files tab ≡ some res)
  unfolding logo_files
  logo_files_ends [] tab = ((err truncated, tab), refl)
  logo_files_ends (e ∷ es) tab =
      let (res, walk) = logo_walk_ends (e ∷ es) tab 0 in
      (backfilled count (u16 e.next) res, rw (walk, logo_files) refl)

  pub logo_annotate_ends :
      (v : Vol) (tab : ℕ → CarEntry) (granted : Bool)
      → (res : Annotation) × (logo_annotate v weights tab count granted ≡ some res)
  unfolding logo_annotate
  logo_annotate_ends v tab granted = elim (Bool-cases (count == 0)) [
    | inl empty ↦ ((err inval, tab), rw empty refl)
    | inr some_cars ↦ elim (Bool-cases granted) [
      | inr refused ↦ ((err nospace, tab), rw (some_cars, refused) refl)
      | inl memory ↦ elim (Outcome-cases (list_dir v carlogo).1) [
        | inr (st, bad) ↦
            ((err (map_listing st), tab), rw (some_cars, memory, bad, logo_annotate) refl)
        | inl (u, good) ↦
            let (res, e) =
              logo_files_ends (skip_dirs (take listing_cap (list_dir v carlogo).0)) tab in
            (res, rw (some_cars, memory, good, logo_annotate) e)
      ]
    ]
  ]
