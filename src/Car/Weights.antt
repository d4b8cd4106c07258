-- ===== src/Car/Weights.antt =====
-- The weight table of gt2_weight_init: a character has its last place in the charset.
use gt2_recomp.Prelude.{
  ℕ, zero, suc, ◌+◌, ◌-◌, ◌<◌, ◌≤◌, ◌≡◌, refl, ◌∙◌, Bool, true, false, ◌&&◌, ◌||◌, some, List, [],
  ◌∷◌, arith, ◌==◌, get_elem?, drop, All, length,
}
use native.Mathlib.Nat.{add-zero}
use gt2_recomp.Bytes.{Bytes, zeros, u8}
use gt2_recomp.Car.{weight_init, weights_from, put_weight, is_lower}
use gt2_recomp.Car.Hash.{SixBits}

-- character `c` gives slot `k` a weight: its own, and that of its capital
abbrev pub gives : ℕ → ℕ → Bool
gives c k = k == c || (is_lower c && k == c - 0x20)

-- no character of the list gives slot `k` a weight
abbrev pub NoneGives : ℕ → List ℕ → Type 0
NoneGives k cs = All (λ d. gives d k ≡ false) cs

put_weight-given : (w : Bytes) (i c k : ℕ) → gives c k ≡ true → put_weight w i c k ≡ u8 i
unfolding put_weight
put_weight-given w i c k h = ground arith

put_weight-kept : (w : Bytes) (i c k : ℕ) → gives c k ≡ false → put_weight w i c k ≡ w k
unfolding put_weight
put_weight-kept w i c k h = ground arith

weights_from-kept :
    (w : Bytes) (i k : ℕ) (cs : List ℕ) → NoneGives k cs → weights_from w i cs k ≡ w k
unfolding weights_from
weights_from-kept w i k [] h = refl
weights_from-kept w i k (c ∷ cs) h =
    weights_from-kept (put_weight w i c) (i + 1) k cs h.1 ∙ put_weight-kept w i c k h.0

weights_from-last :
    (w : Bytes) (i j k c : ℕ) (cs : List ℕ)
    → get_elem? cs j ≡ some c
    → gives c k ≡ true
    → NoneGives k (drop (suc j) cs)
    → weights_from w i cs k ≡ u8 (i + j)
unfolding weights_from
weights_from-last w i j k c [] at g after = absurd (grind arith)
weights_from-last w i zero k c (d ∷ cs) at g after =
    let same : d ≡ c = cc in
    let given : put_weight w i d k ≡ u8 i = put_weight-given w i d k (rw same g) in
    weights_from-kept (put_weight w i d) (i + 1) k cs after ∙ given ∙ rw add-zero refl
weights_from-last w i (suc j) k c (d ∷ cs) at g after =
    let e : i + 1 + j ≡ i + suc j = omega arith in
    rw (← e) (weights_from-last (put_weight w i d) (i + 1) j k c cs at g after)

-- The weight of a slot is the low byte of the last place in the charset that holds its character, or,
-- for a capital, the character's small form.
pub weight_init-last :
    (cs : List ℕ) (j k c : ℕ)
    → get_elem? cs j ≡ some c
    → gives c k ≡ true
    → NoneGives k (drop (suc j) cs)
    → weight_init cs k ≡ u8 j
unfolding weight_init
weight_init-last cs j k c at g after =
    let e : 0 + j ≡ j = omega arith in rw e at (weights_from-last zeros 0 j k c cs at g after)

-- A slot whose character, small or capital, the charset does not hold has weight 0.
pub weight_init-absent : (cs : List ℕ) (k : ℕ) → NoneGives k cs → weight_init cs k ≡ 0
unfolding weight_init
weight_init-absent cs k h = weights_from-kept zeros 0 k cs h

put_weight-lt : (w : Bytes) (i c k : ℕ) → w k < 64 → i < 64 → put_weight w i c k < 64
unfolding put_weight
put_weight-lt w i c k h p = ground arith

weights_from-lt :
    (w : Bytes) (i k : ℕ) (cs : List ℕ) → w k < 64 → i + length cs ≤ 64 → weights_from w i cs k < 64
unfolding weights_from
weights_from-lt w i k [] h p = h
weights_from-lt w i k (c ∷ cs) h p =
    weights_from-lt (put_weight w i c) (i + 1) k cs (put_weight-lt w i c k h (omega arith))
      (omega arith)

-- A charset of at most 64 characters gives weights of six bits, as the hash needs.
pub weight_init-SixBits : (cs : List ℕ) → length cs ≤ 64 → SixBits (weight_init cs)
unfolding weight_init
weight_init-SixBits cs h = record {
  small = λ c. weights_from-lt zeros 0 c cs (omega arith) (omega arith);
}
