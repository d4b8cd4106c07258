-- ===== src/Car/Search.antt =====
-- gt2_car_find ends, and is right on a table that ascends by hash.
use gt2_recomp.Prelude.{
  ℕ, zero, suc, ◌+◌, ◌-◌, ◌^◌, ◌<◌, ◌≤◌, ◌≡◌, ◌≢◌, refl, ◌∙◌, true, false, Option, none, some,
  arith, ltb, leb, ◌==◌, Bool-cases, inl, inr,
}
use gt2_recomp.Car.{CarEntry, midpoint, find_loop, find}

-- the hashes do not fall
pub record Sorted (tab : ℕ → CarEntry) (count : ℕ) : Type 0 where
  pub mono : (i j : ℕ) → i ≤ j → j < count → (tab i).hash ≤ (tab j).hash

found_here :
    (tab : ℕ → CarEntry) (count hash mid i : ℕ)
    → leb count mid ≡ false
    → (hash == (tab mid).hash) ≡ true
    → ◌≡◌ {A = Option (Option ℕ)} (some (some mid)) (some (some i))
    → (i < count) × ((tab i).hash ≡ hash)
found_here tab count hash mid i ins hit e =
    let same : mid ≡ i = cc in rw (← same) (ground (arith, ins), ground (arith, hit))

find_loop_sound :
    (f : ℕ) (tab : ℕ → CarEntry) (count hash lo hi i : ℕ)
    → find_loop f tab count hash lo hi ≡ some (some i)
    → (i < count) × ((tab i).hash ≡ hash)
unfolding find_loop
find_loop_sound zero tab count hash lo hi i h = cc
find_loop_sound (suc f) tab count hash lo hi i h =
    let mid = midpoint lo hi in
    elim (Bool-cases (leb count mid)) [
      | inl out ↦ cc (rw out at h)
      | inr ins ↦ elim (Bool-cases (hash == (tab mid).hash)) [
        | inl hit ↦ found_here tab count hash mid i ins hit (rw (ins, hit) at h)
        | inr miss ↦ elim (Bool-cases (ltb lo hi)) [
          | inl go ↦ find_loop_sound f tab count hash _ _ i (rw (ins, miss, go) at h)
          | inr stop ↦ cc (rw (ins, miss, stop) at h)
        ]
      ]
    ]

-- An index that gt2_car_find returns is below the count and carries the hash, whatever the table.
pub find_sound :
    (tab : ℕ → CarEntry) (count hash i : ℕ)
    → find tab count hash ≡ some (some i)
    → (i < count) × ((tab i).hash ≡ hash)
unfolding find
find_sound tab count hash i h = elim (Bool-cases (count == 0)) [
  | inl z ↦ cc (rw z at h)
  | inr n ↦ find_loop_sound (count + 1) tab count hash 0 count i (rw n at h)
]

-- one round at a probe inside the range that misses
find_loop-low :
    (f : ℕ) (tab : ℕ → CarEntry) (count hash lo hi : ℕ)
    → leb count (midpoint lo hi) ≡ false
    → (hash == (tab (midpoint lo hi)).hash) ≡ false
    → ltb lo hi ≡ true
    → leb hash (tab (midpoint lo hi)).hash ≡ true
    → find_loop (suc f) tab count hash lo hi ≡ find_loop f tab count hash lo (midpoint lo hi)
unfolding find_loop
find_loop-low f tab count hash lo hi ins miss go low = rw (ins, miss, go, low) refl

find_loop-high :
    (f : ℕ) (tab : ℕ → CarEntry) (count hash lo hi : ℕ)
    → leb count (midpoint lo hi) ≡ false
    → (hash == (tab (midpoint lo hi)).hash) ≡ false
    → ltb lo hi ≡ true
    → leb hash (tab (midpoint lo hi)).hash ≡ false
    → find_loop (suc f) tab count hash lo hi ≡ find_loop f tab count hash (midpoint lo hi + 1) hi
unfolding find_loop
find_loop-high f tab count hash lo hi ins miss go low = rw (ins, miss, go, low) refl

find_loop-hit :
    (f : ℕ) (tab : ℕ → CarEntry) (count hash lo hi : ℕ)
    → leb count (midpoint lo hi) ≡ false
    → (hash == (tab (midpoint lo hi)).hash) ≡ true
    → find_loop (suc f) tab count hash lo hi ≡ some (some (midpoint lo hi))
unfolding find_loop
find_loop-hit f tab count hash lo hi ins hit = rw (ins, hit) refl

midpoint_in :
    (lo hi count : ℕ)
    → lo < hi
    → hi ≤ count
    → count ≤ 2 ^ 31
    → (lo ≤ midpoint lo hi) × (midpoint lo hi < hi)
unfolding midpoint
midpoint_in lo hi count h p q = (omega arith, omega arith)

-- with enough rounds, an entry in the range that carries the hash leads to a hit
find_loop_total :
    (f : ℕ) (tab : ℕ → CarEntry) (count hash lo hi j : ℕ)
    → Sorted tab count
    → count ≤ 2 ^ 31
    → hi ≤ count
    → hi - lo < f
    → lo ≤ j
    → j < hi
    → (tab j).hash ≡ hash
    → (i : ℕ) × (find_loop f tab count hash lo hi ≡ some (some i))
find_loop_total zero tab count hash lo hi j s small top fuel p q e = elim fuel [ ]
find_loop_total (suc f) tab count hash lo hi j s small top fuel p q e =
    let mid = midpoint lo hi in
    let (m1, m2) = midpoint_in lo hi count (omega arith) top small in
    let ins : leb count mid ≡ false = ground arith in
    let go : ltb lo hi ≡ true = ground arith in
    elim (Bool-cases (hash == (tab mid).hash)) [
      | inl hit ↦ (mid, find_loop-hit f tab count hash lo hi ins hit)
      | inr miss ↦ elim (Bool-cases (leb hash (tab mid).hash)) [
        | inl low ↦ elim (Bool-cases (ltb j mid)) [
          | inl left ↦
              let (i, r) =
                find_loop_total f tab count hash lo mid j s small (omega arith) (omega arith) p
                  (ground (arith, left)) e in
              (i, find_loop-low f tab count hash lo hi ins miss go low ∙ r)
          | inr right ↦ absurd (ground (arith, miss, low, right, e, s.mono mid j))
        ]
        | inr high ↦ elim (Bool-cases (ltb mid j)) [
          | inl right ↦
              let (i, r) =
                find_loop_total f tab count hash (mid + 1) hi j s small top (omega arith)
                  (ground (arith, right)) q e in
              (i, find_loop-high f tab count hash lo hi ins miss go high ∙ r)
          | inr left ↦ absurd (ground (arith, miss, high, left, e, s.mono j mid))
        ]
      ]
    ]

-- with enough rounds the loop ends, whatever the table
find_loop_ends :
    (f : ℕ) (tab : ℕ → CarEntry) (count hash lo hi : ℕ)
    → count ≤ 2 ^ 31
    → hi ≤ count
    → hi - lo < f
    → (o : Option ℕ) × (find_loop f tab count hash lo hi ≡ some o)
unfolding find_loop
find_loop_ends zero tab count hash lo hi small top fuel = elim fuel [ ]
find_loop_ends (suc f) tab count hash lo hi small top fuel =
    let mid = midpoint lo hi in
    elim (Bool-cases (leb count mid)) [
      | inl out ↦ (none, rw out refl)
      | inr ins ↦ elim (Bool-cases (hash == (tab mid).hash)) [
        | inl hit ↦ (some mid, rw (ins, hit) refl)
        | inr miss ↦ elim (Bool-cases (ltb lo hi)) [
          | inr stop ↦ (none, rw (ins, miss, stop) refl)
          | inl go ↦
              let (m1, m2) = midpoint_in lo hi count (ground (arith, go)) top small in
              elim (Bool-cases (leb hash (tab mid).hash)) [
                | inl low ↦
                    let (o, e) =
                      find_loop_ends f tab count hash lo mid small (omega arith) (omega arith) in
                    (o, find_loop-low f tab count hash lo hi ins miss go low ∙ e)
                | inr high ↦
                    let (o, e) =
                      find_loop_ends f tab count hash (mid + 1) hi small top (omega arith) in
                    (o, find_loop-high f tab count hash lo hi ins miss go high ∙ e)
              ]
        ]
      ]
    ]

-- what a search for a hash may answer: an entry below the count that carries it, or -1 where none does
pub data Answers (tab : ℕ → CarEntry) (count hash : ℕ) : Option ℕ → Type 0 where
  hit : (i : ℕ) → i < count → (tab i).hash ≡ hash → Answers tab count hash (some i)
  miss : ((j : ℕ) → j < count → (tab j).hash ≢ hash) → Answers tab count hash none

pub find_ends :
    (tab : ℕ → CarEntry) (count hash : ℕ)
    → count ≤ 2 ^ 31
    → (o : Option ℕ) × (find tab count hash ≡ some o)
unfolding find
find_ends tab count hash small = elim (Bool-cases (count == 0)) [
  | inl z ↦ (none, rw z refl)
  | inr n ↦
      let (o, e) =
        find_loop_ends (count + 1) tab count hash 0 count small (omega arith) (omega arith) in
      (o, rw n e)
]

find_hits :
    (tab : ℕ → CarEntry) (count hash j : ℕ)
    → Sorted tab count
    → count ≤ 2 ^ 31
    → j < count
    → (tab j).hash ≡ hash
    → (i : ℕ) × (find tab count hash ≡ some (some i))
unfolding find
find_hits tab count hash j s small lt e =
    let (i, r) =
      find_loop_total (count + 1) tab count hash 0 count j s small (omega arith) (omega arith)
        (omega arith) lt e in
    let some_entry : (count == 0) ≡ false = ground arith in (i, rw some_entry r)

answered :
    (tab : ℕ → CarEntry) (count hash : ℕ) (o : Option ℕ)
    → Sorted tab count
    → count ≤ 2 ^ 31
    → find tab count hash ≡ some o
    → Answers tab count hash o
answered tab count hash none s small e =
    miss (λ j lt same. let (i, r) = find_hits tab count hash j s small lt same in cc (e, r))
answered tab count hash (some i) s small e =
    let (lt, same) = find_sound tab count hash i e in hit i lt same

-- On a table of at most 2 ^ 31 entries that ascends by hash, gt2_car_find returns after at most one
-- round more than entries: the index of an entry below the count that carries the hash, or -1, and
-- then no entry below the count carries it.
pub find-Answers :
    (tab : ℕ → CarEntry) (count hash : ℕ)
    → Sorted tab count
    → count ≤ 2 ^ 31
    → (o : Option ℕ) × (find tab count hash ≡ some o) × Answers tab count hash o
find-Answers tab count hash s small =
    let (o, e) = find_ends tab count hash small in (o, e, answered tab count hash o s small e)
