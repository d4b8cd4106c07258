-- ===== src/Vol/Pack/Ascending.antt =====
-- The sorted replacements of gt2_vol_pack: the walk by `ri` finds the replacement of each index.
use gt2_recomp.Prelude.{
  ℕ, suc, ◌<◌, ◌≤◌, ◌≡◌, refl, sym, ◌∙◌, true, Option, none, some, List, [], ◌∷◌, arith, leb, ◌==◌,
  if◌then◌else◌, Bool-cases, inl, inr, tests,
}
use gt2_recomp.Vol.Pack.{
  Replacement, insert, sort, no_duplicate, next_for, rest_for, replacements_ok,
}

-- the replacement of an index, in any list
unfoldable pub find_rep : ℕ → List Replacement → Option Replacement
find_rep i [] = none
find_rep i (r ∷ rs) = if r.index == i then some r else find_rep i rs

-- indices from `i` on, each below the next
abbrev pub Ascending : ℕ → List Replacement → Type 0
Ascending i [] = Unit
Ascending i (r ∷ rs) = (i ≤ r.index) × Ascending (suc r.index) rs

pub Ascending-le : (i j : ℕ) (rs : List Replacement) → i ≤ j → Ascending j rs → Ascending i rs
Ascending-le i j [] h a = tt
Ascending-le i j (r ∷ rs) h (lo, a) = (omega arith, a)

find_rep-below : (i j : ℕ) (rs : List Replacement) → i < j → Ascending j rs → find_rep i rs ≡ none
unfolding find_rep
find_rep-below i j [] h a = refl
find_rep-below i j (r ∷ rs) h (lo, a) =
    ground (arith, find_rep-below i (suc r.index) rs (omega arith) a)

pub next_for-eq-find_rep :
    (i : ℕ) (rs : List Replacement) → Ascending i rs → next_for i rs ≡ find_rep i rs
unfolding next_for find_rep
next_for-eq-find_rep i [] a = refl
next_for-eq-find_rep i (r ∷ rs) (lo, a) = elim (Bool-cases (r.index == i)) [
  | inl e ↦ rw e refl
  | inr e ↦ rw e (sym (find_rep-below i (suc r.index) rs (omega arith) a))
]

pub rest_for-Ascending :
    (i : ℕ) (rs : List Replacement) → Ascending i rs → Ascending (suc i) (rest_for i rs)
unfolding rest_for
rest_for-Ascending i [] a = tt
rest_for-Ascending i (r ∷ rs) (lo, a) = elim (Bool-cases (r.index == i)) [
  | inl e ↦ rw e (Ascending-le (suc i) (suc r.index) rs (omega arith) a)
  | inr e ↦ rw e (ground arith, a)
]

pub find_rep-rest_for :
    (i j : ℕ) (rs : List Replacement) → i < j → find_rep j (rest_for i rs) ≡ find_rep j rs
unfolding rest_for find_rep
find_rep-rest_for i j [] h = refl
find_rep-rest_for i j (r ∷ rs) h = ground arith

-- Sorting and the check for duplicates leave an ascending list.
abbrev LowerBound : ℕ → List Replacement → Type 0
LowerBound i [] = Unit
LowerBound i (r ∷ rs) = (i ≤ r.index) × LowerBound i rs

abbrev Sorted : List Replacement → Type 0
Sorted [] = Unit
Sorted (r ∷ rs) = LowerBound r.index rs × Sorted rs

LowerBound-le : (i j : ℕ) (rs : List Replacement) → i ≤ j → LowerBound j rs → LowerBound i rs
LowerBound-le i j [] h b = tt
LowerBound-le i j (r ∷ rs) h (lo, b) = (omega arith, LowerBound-le i j rs h b)

insert-LowerBound :
    (i : ℕ) (r : Replacement) (rs : List Replacement)
    → i ≤ r.index
    → LowerBound i rs
    → LowerBound i (insert r rs)
unfolding insert
insert-LowerBound i r [] h b = (h, tt)
insert-LowerBound i r (s ∷ ss) h (lo, b) = elim (Bool-cases (leb r.index s.index)) [
  | inl e ↦ rw e (h, (lo, b))
  | inr e ↦ rw e (lo, insert-LowerBound i r ss h b)
]

insert-Sorted : (r : Replacement) (rs : List Replacement) → Sorted rs → Sorted (insert r rs)
unfolding insert
insert-Sorted r [] s = (tt, tt)
insert-Sorted r (t ∷ ts) (b, s) = elim (Bool-cases (leb r.index t.index)) [
  | inl e ↦
      let le : r.index ≤ t.index = omega tests in
      rw e ((le, LowerBound-le r.index t.index ts le b), (b, s))
  | inr e ↦ rw e (insert-LowerBound t.index r ts (ground arith) b, insert-Sorted r ts s)
]

sort-Sorted : (rs : List Replacement) → Sorted (sort rs)
unfolding sort
sort-Sorted [] = tt
sort-Sorted (r ∷ rs) = insert-Sorted r (sort rs) (sort-Sorted rs)

find_rep-insert :
    (i : ℕ) (r : Replacement) (rs : List Replacement)
    → find_rep i (insert r rs) ≡ (if r.index == i then some r else find_rep i rs)
unfolding insert find_rep
find_rep-insert i r [] = refl
find_rep-insert i r (s ∷ ss) = ground (arith, find_rep-insert i r ss)

pub find_rep-sort : (i : ℕ) (rs : List Replacement) → find_rep i (sort rs) ≡ find_rep i rs
unfolding sort
find_rep-sort i [] = refl
find_rep-sort i (r ∷ rs) =
    find_rep-insert i r (sort rs) ∙ rw (find_rep-sort i rs) (unfold find_rep in refl)

Sorted-Ascending :
    (i : ℕ) (rs : List Replacement)
    → LowerBound i rs
    → Sorted rs
    → no_duplicate rs ≡ true
    → Ascending i rs
unfolding no_duplicate
Sorted-Ascending i [] b s d = tt
Sorted-Ascending i (r ∷ []) (lo, b) s d = (lo, tt)
Sorted-Ascending i (r ∷ t ∷ ts) (lo, b) ((le, c), (e, s)) d =
    let apart : suc r.index ≤ t.index = ground arith in
    (
      lo,
      Sorted-Ascending (suc r.index) (t ∷ ts)
          (apart, LowerBound-le (suc r.index) t.index ts apart e) (e, s) (ground arith),
    )

LowerBound-sort : (i : ℕ) (rs : List Replacement) → LowerBound i rs → LowerBound i (sort rs)
unfolding sort
LowerBound-sort i [] b = tt
LowerBound-sort i (r ∷ rs) (lo, b) = insert-LowerBound i r (sort rs) lo (LowerBound-sort i rs b)

replacements_ok-LowerBound :
    (last_valid : ℕ) (rs : List Replacement)
    → replacements_ok last_valid rs ≡ true
    → LowerBound 2 rs
unfolding replacements_ok
replacements_ok-LowerBound last_valid [] h = tt
replacements_ok-LowerBound last_valid (r ∷ rs) h =
    (ground arith, replacements_ok-LowerBound last_valid rs (ground arith))

-- What passes gt2_vol_pack's checks ascends from index 2 once sorted.
pub checked-Ascending :
    (last_valid : ℕ) (rs : List Replacement)
    → replacements_ok last_valid rs ≡ true
    → no_duplicate (sort rs) ≡ true
    → Ascending 2 (sort rs)
checked-Ascending last_valid rs h d =
    Sorted-Ascending 2 (sort rs) (LowerBound-sort 2 rs (replacements_ok-LowerBound last_valid rs h))
      (sort-Sorted rs) d
