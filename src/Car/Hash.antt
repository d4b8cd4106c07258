-- ===== src/Car/Hash.antt =====
-- The name hash is a base-64 number of the weights, and the weight table maps a character to its last
-- place in the charset.
use gt2_recomp.Prelude.{
  ℕ, ◌+◌, ◌*◌, ◌^◌, ◌<◌, ◌≤◌, ◌≡◌, refl, Bool, true, false, ◌&&◌, ◌||◌, List, [], ◌∷◌, arith, ltb,
  ◌==◌, Bool-cases, inl, inr, tests, get_or, bit_or, bit_or-add,
}
use gt2_recomp.Bytes.{Bytes}
use gt2_recomp.Car.{namehash}

-- the weight of the character at position `i`, and of the NUL past the end
abbrev pub weight_at : Bytes → List ℕ → ℕ → ℕ
weight_at weights name i = weights (get_or name i 0)

-- every weight has six bits
pub record SixBits (weights : Bytes) : Type 0 where
  pub small : (c : ℕ) → weights c < 64

joins :
    (a b c d e : ℕ)
    → a < 64
    → b < 64
    → c < 64
    → d < 64
    → e < 64
    → bit_or (bit_or (bit_or (bit_or a (b * 2 ^ 6)) (c * 2 ^ 12)) (d * 2 ^ 18)) (e * 2 ^ 24)
      ≡ a + b * 2 ^ 6 + c * 2 ^ 12 + d * 2 ^ 18 + e * 2 ^ 24
joins a b c d e ha hb hc hd he =
    let p = bit_or-add 6 a b (omega arith) in
    let q = bit_or-add 12 (a + b * 2 ^ 6) c (omega arith) in
    let r = bit_or-add 18 (a + b * 2 ^ 6 + c * 2 ^ 12) d (omega arith) in
    let s = bit_or-add 24 (a + b * 2 ^ 6 + c * 2 ^ 12 + d * 2 ^ 18) e (omega arith) in
    rw (p, q, r) s

namehash-digits :
    (weights : Bytes) (name : List ℕ)
    → SixBits weights
    → namehash weights name
      ≡ weight_at weights name 4
        + weight_at weights name 3 * 2 ^ 6
        + weight_at weights name 2 * 2 ^ 12
        + weight_at weights name 1 * 2 ^ 18
        + weight_at weights name 0 * 2 ^ 24
unfolding namehash
namehash-digits weights name s =
    joins (weight_at weights name 4) (weight_at weights name 3) (weight_at weights name 2)
      (weight_at weights name 1) (weight_at weights name 0) (s.small _) (s.small _) (s.small _)
      (s.small _) (s.small _)

-- the five weights, the first character's first
abbrev pub weights_of : Bytes → List ℕ → List ℕ
weights_of weights name =
    weight_at weights name 0
    ∷ weight_at weights name 1
    ∷ weight_at weights name 2
    ∷ weight_at weights name 3
    ∷ weight_at weights name 4
    ∷ []

-- the alphabetic order of two words of one length
unfoldable pub lex_ltb : List ℕ → List ℕ → Bool
lex_ltb [] ys = false
lex_ltb (x ∷ xs) [] = false
lex_ltb (x ∷ xs) (y ∷ ys) = ltb x y || (x == y && lex_ltb xs ys)

full_step : (x y m : ℕ) → x + 1 ≤ y → x * m + m ≤ y * m
full_step x y m h = grind arith

lead :
    (m x y p q : ℕ) → p < m → q < m → ltb (p + x * m) (q + y * m) ≡ (ltb x y || (x == y && ltb p q))
lead m x y p q hp hq = elim (Bool-cases (ltb x y)) [
  | inl less ↦
      let f = full_step x y m (omega tests) in
      let e : ltb (p + x * m) (q + y * m) ≡ true = ground arith in rw (less, e) refl
  | inr more ↦ elim (Bool-cases (x == y)) [
    | inl same ↦ let e : x ≡ y = ground (arith, same) in rw (more, same, e) (ground arith)
    | inr differ ↦
        let f = full_step y x m (ground (arith, more, differ)) in
        let e : ltb (p + x * m) (q + y * m) ≡ false = ground arith in rw (more, differ, e) refl
  ]
]

-- With weights of six bits the hashes are ordered as the names are by their first five characters, in
-- the alphabet that the weights give.
pub namehash-lex :
    (weights : Bytes) (a b : List ℕ)
    → SixBits weights
    → ltb (namehash weights a) (namehash weights b)
      ≡ lex_ltb (weights_of weights a) (weights_of weights b)
unfolding lex_ltb
namehash-lex weights a b s =
    let small = λ (i : ℕ) (n : List ℕ). s.small (get_or n i 0) in
    let va : ℕ → ℕ = weight_at weights a in
    let vb : ℕ → ℕ = weight_at weights b in
    let a4 = small 4 a in
    let a3 = small 3 a in
    let a2 = small 2 a in
    let a1 = small 1 a in
    let b4 = small 4 b in
    let b3 = small 3 b in
    let b2 = small 2 b in
    let b1 = small 1 b in
    let l4 =
      lead (2 ^ 24) (va 0) (vb 0) (va 4 + va 3 * 2 ^ 6 + va 2 * 2 ^ 12 + va 1 * 2 ^ 18)
        (vb 4 + vb 3 * 2 ^ 6 + vb 2 * 2 ^ 12 + vb 1 * 2 ^ 18) (omega arith) (omega arith) in
    let l3 =
      lead (2 ^ 18) (va 1) (vb 1) (va 4 + va 3 * 2 ^ 6 + va 2 * 2 ^ 12)
        (vb 4 + vb 3 * 2 ^ 6 + vb 2 * 2 ^ 12) (omega arith) (omega arith) in
    let l2 =
      lead (2 ^ 12) (va 2) (vb 2) (va 4 + va 3 * 2 ^ 6) (vb 4 + vb 3 * 2 ^ 6) (omega arith)
        (omega arith) in
    let l1 = lead (2 ^ 6) (va 3) (vb 3) (va 4) (vb 4) (omega arith) (omega arith) in
    rw (namehash-digits weights a s, namehash-digits weights b s, l4, l3, l2, l1) (ground arith)
