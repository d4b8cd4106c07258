-- ===== src/Car/Tables/Logos.antt =====
-- gt2_car_logo_annotate on a table that ascends strictly by hash: it returns, each car has the logo of
-- the last file for it, and nothing else of the table changes.
use gt2_recomp.Prelude.{
  ℕ, ◌^◌, ◌<◌, ◌≤◌, ◌≡◌, ◌≢◌, refl, ◌∙◌, Bool, true, false, ◌&&◌, some, List, [], ◌∷◌, Outcome, ok,
  err, arith, ltb, ◌==◌, Bool-cases, Outcome-cases, inl, inr, take,
}
use gt2_recomp.Bytes.{Bytes, u16}
use gt2_recomp.Vol.{Vol}
use gt2_recomp.Vol.Walk.{Entry, list_dir}
use gt2_recomp.Car.{
  CarEntry, CarStatus, inval, nospace, truncated, map_listing, skip_dirs, listing_cap,
}
use gt2_recomp.Car.Tables.{backfill, backfilled, logo_files, carlogo, logo_annotate}
use gt2_recomp.Car.Tables.NamedLogos.{
  SameKeys, SameKeys-refl, SameKeys-trans, Rising, Pairs, LogoOf, Hits,
}
use gt2_recomp.Car.Tables.LogoWalk.{WalkEnds, short, walked, logo_walk-WalkEnds}

-- What the call leaves of the table. With a status it is the table with the same keys. With a number of
-- hits that is how many of the logos are for a car of the table; each car has the index of the last
-- logo for it, or its own, or that of the first file if this is 0; and nothing else has changed.
pub data Annotated (weights : Bytes) (count : ℕ) (files : List Entry) (tab : ℕ → CarEntry)
    : Outcome CarStatus ℕ × (ℕ → CarEntry) → Type 0 where
  refused :
      (st : CarStatus) (out : ℕ → CarEntry)
      → SameKeys out tab
      → Annotated weights count files tab (err st, out)
  filled :
      (first : Entry) (rest logos : List Entry) (hits : ℕ) (found : ℕ → ℕ) (out : ℕ → CarEntry)
      → files ≡ first ∷ rest
      → Pairs files logos
      → Hits weights tab count logos hits
      → ((j : ℕ) → j < count → LogoOf weights (tab j).hash (tab j).z logos (found j))
      → ((j : ℕ) → j < count → found j ≡ 0 → (out j).z ≡ u16 first.next)
      → ((j : ℕ) → j < count → found j ≢ 0 → (out j).z ≡ found j)
      → SameKeys out tab
      → ((j : ℕ) → count ≤ j → (out j).z ≡ (tab j).z)
      → Annotated weights count files tab (ok hits, out)

SameKeys-backfill : (count dflt : ℕ) (a : ℕ → CarEntry) → SameKeys (backfill count dflt a) a
SameKeys-backfill count dflt a = record {
  hash = λ j. elim (Bool-cases (ltb j count && (a j).z == 0)) [
    | inl e ↦ rw e refl
    | inr e ↦ rw e refl
  ];
  index = λ j. elim (Bool-cases (ltb j count && (a j).z == 0)) [
    | inl e ↦ rw e refl
    | inr e ↦ rw e refl
  ];
}

module _ (count dflt : ℕ) (a : ℕ → CarEntry) (j : ℕ) where
  backfill-empty : j < count → (a j).z ≡ 0 → (backfill count dflt a j).z ≡ dflt
  backfill-empty lt z =
      let p : ltb j count ≡ true = ground arith in
      let q : ((a j).z == 0) ≡ true = ground arith in rw (p, q) refl

  backfill-full : j < count → (a j).z ≢ 0 → (backfill count dflt a j).z ≡ (a j).z
  backfill-full lt full =
      let p : ltb j count ≡ true = ground arith in
      let q : ((a j).z == 0) ≡ false = ground arith in rw (p, q) refl

  backfill-beyond : count ≤ j → (backfill count dflt a j).z ≡ (a j).z
  backfill-beyond le = let p : ltb j count ≡ false = ground arith in rw p refl

backfilled-Annotated :
    (weights : Bytes) (count : ℕ) (e : Entry) (es : List Entry) (tab : ℕ → CarEntry)
    (res : Outcome CarStatus ℕ × (ℕ → CarEntry))
    → WalkEnds weights count (e ∷ es) tab 0 res
    → Annotated weights count (e ∷ es) tab (backfilled count (u16 e.next) res)
backfilled-Annotated weights count e es tab (_, _) (short out s) = refused truncated out s
backfilled-Annotated weights count e es tab (_, _) (walked logos n total out sum p h s l b) =
    let dflt = u16 e.next in
    let same : n ≡ total = omega (arith, sum) in
    filled e es logos total (λ j. (out j).z) (backfill count dflt out) refl p (rw same at h) l
      (backfill-empty count dflt out) (backfill-full count dflt out)
      (SameKeys-trans (backfill count dflt out) out tab (SameKeys-backfill count dflt out) s)
      (λ j le. backfill-beyond count dflt out j le ∙ b j le)

logo_files-Annotated :
    (weights : Bytes) (count : ℕ) (files : List Entry) (tab : ℕ → CarEntry)
    → count ≤ 2 ^ 31
    → Rising tab count
    → (res : Outcome CarStatus ℕ × (ℕ → CarEntry)) × (logo_files weights count files tab ≡ some res)
      × Annotated weights count files tab res
unfolding logo_files
logo_files-Annotated weights count [] tab small r =
    ((err truncated, tab), refl, refused truncated tab (SameKeys-refl tab))
logo_files-Annotated weights count (e ∷ es) tab small r =
    let (res, e1, ends) = logo_walk-WalkEnds weights count small (e ∷ es) tab 0 r in
    (
      backfilled count (u16 e.next) res,
      rw (e1, logo_files) refl,
      backfilled-Annotated weights count e es tab res ends,
    )

-- On a table of at most 2 ^ 31 entries whose hashes rise, gt2_car_logo_annotate returns. Whatever it
-- returns, the hashes and the indices of the table are as before. If it succeeds, each car has the
-- index of the last logo for it, or the one it had if there is none, or, where this is 0, that of the
-- first file of the directory; the entries from the count on are as before; and the number of hits is how
-- many of the logos are for a car of the table.
pub logo_annotate-Annotated :
    (v : Vol) (weights : Bytes) (tab : ℕ → CarEntry) (count : ℕ) (granted : Bool)
    → count ≤ 2 ^ 31
    → Rising tab count
    → (res : Outcome CarStatus ℕ × (ℕ → CarEntry)) × (logo_annotate v weights tab count granted
        ≡ some res)
      × Annotated weights count (skip_dirs (take listing_cap (list_dir v carlogo).0)) tab res
unfolding logo_annotate
logo_annotate-Annotated v weights tab count granted small r =
    let files = skip_dirs (take listing_cap (list_dir v carlogo).0) in
    elim (Bool-cases (count == 0)) [
      | inl empty ↦ ((err inval, tab), rw empty refl, refused inval tab (SameKeys-refl tab))
      | inr some_cars ↦ elim (Bool-cases granted) [
        | inr refused_memory ↦ (
          (err nospace, tab),
          rw (some_cars, refused_memory) refl,
          refused nospace tab (SameKeys-refl tab),
        )
        | inl memory ↦ elim (Outcome-cases (list_dir v carlogo).1) [
          | inr (st, bad) ↦ (
            (err (map_listing st), tab),
            rw (some_cars, memory, bad, logo_annotate) refl,
            refused (map_listing st) tab (SameKeys-refl tab),
          )
          | inl (u, good) ↦
              let (res, e, a) = logo_files-Annotated weights count files tab small r in
              (res, rw (some_cars, memory, good, logo_annotate) e, a)
        ]
      ]
    ]
