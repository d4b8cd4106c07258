-- ===== src/Bytes/Laws.antt =====
-- Laws of the buffer accessors.
use gt2_recomp.Prelude.{
  ℕ, zero, suc, ◌+◌, ◌^◌, ◌<◌, ◌≤◌, ◌≡◌, ◌↔◌, refl, true, List, [], ◌∷◌, arith, ◌⊎◌, ◌-◌, ◌%◌,
}
use gt2_recomp.Bytes.{Bytes, le16, le32, put_u16, put_u32, str_eq, copy, le_byte}

pub record IsByte (m : Bytes) : Type 0 where
  pub small : (k : ℕ) → m k < 256

pub le32-lt : {m : Bytes} → IsByte m → (o : ℕ) → le32 m o < 2 ^ 32
le32-lt h o = omega (arith, h.small o, h.small (o + 1), h.small (o + 2), h.small (o + 3))

pub le16-lt : {m : Bytes} → IsByte m → (o : ℕ) → le16 m o < 2 ^ 16
le16-lt h o = omega (arith, h.small o, h.small (o + 1))

pub le32-put_u32 : (m : Bytes) (o v : ℕ) → v < 2 ^ 32 → le32 (put_u32 m o v) o ≡ v
unfolding put_u32
le32-put_u32 m o v h = ground arith

pub put_u32_ne : (m : Bytes) (o v k : ℕ) → (k < o) ⊎ (o + 4 ≤ k) → put_u32 m o v k ≡ m k
unfolding put_u32
put_u32_ne m o v k h = ground arith

pub str_eq_iff : (xs ys : List ℕ) → (str_eq xs ys ≡ true) ↔ (xs ≡ ys)
unfolding str_eq
str_eq_iff [] [] = (λ h. refl, λ h. refl)
str_eq_iff [] (y ∷ ys) = (λ h. cc, λ h. cc)
str_eq_iff (x ∷ xs) [] = (λ h. cc, λ h. cc)
str_eq_iff (x ∷ xs) (y ∷ ys) = let ih = str_eq_iff xs ys in (ground (arith, ih), ground (arith, ih))

pub copy_inside : (m src : Bytes) (o len k : ℕ) → k < len → copy m o src len (o + k) ≡ src k
copy_inside m src o len k h = let e : o + k - o ≡ k = omega arith in ground (arith, e)

pub copy_front : (m src : Bytes) (len k : ℕ) → k < len → copy m 0 src len k ≡ src k
copy_front m src len k h = let e : 0 + k ≡ k = omega arith in rw e at (copy_inside m src 0 len k h)

pub copy_outside :
    (m src : Bytes) (o len k : ℕ) → (k < o) ⊎ (o + len ≤ k) → copy m o src len k ≡ m k
copy_outside m src o len k h = ground arith

pub le32-le_byte :
    (m : Bytes) (o v : ℕ) → v < 2 ^ 32 → ((c : ℕ) → c < 4 → m (o + c) ≡ le_byte v c) → le32 m o ≡ v
le32-le_byte m o v h f =
    let z : o + 0 ≡ o = omega arith in
    let a : m o ≡ v % 256 = rw z at (f 0 (omega arith)) in
    omega (arith, a, f 1 (omega arith), f 2 (omega arith), f 3 (omega arith))

pub le_byte-lt : (v c : ℕ) → le_byte v c < 256
le_byte-lt v zero = omega arith
le_byte-lt v (suc zero) = omega arith
le_byte-lt v (suc (suc zero)) = omega arith
le_byte-lt v (suc (suc (suc c))) = omega arith

-- Two little-endian words that are equal have the same bytes.
pub le32-injective :
    (a b : Bytes) (o : ℕ)
    → ((c : ℕ) → c < 4 → a (o + c) < 256)
    → ((c : ℕ) → c < 4 → b (o + c) < 256)
    → le32 a o ≡ le32 b o
    → (c : ℕ) → c < 4
    → a (o + c) ≡ b (o + c)
le32-injective a b o ha hb e c h =
    let z : o + 0 ≡ o = omega arith in
    let a0 : a o < 256 = rw z at (ha 0 (omega arith)) in
    let b0 : b o < 256 = rw z at (hb 0 (omega arith)) in
    let a1 = ha 1 (omega arith) in
    let b1 = hb 1 (omega arith) in
    let a2 = ha 2 (omega arith) in
    let b2 = hb 2 (omega arith) in
    let a3 = ha 3 (omega arith) in
    let b3 = hb 3 (omega arith) in
    byte_of c h (rw z (omega arith)) (omega arith) (omega arith) (omega arith)
  where
    byte_of :
        (c : ℕ)
        → c < 4
        → a (o + 0) ≡ b (o + 0)
        → a (o + 1) ≡ b (o + 1)
        → a (o + 2) ≡ b (o + 2)
        → a (o + 3) ≡ b (o + 3)
        → a (o + c) ≡ b (o + c)
    byte_of zero h p q r s = p
    byte_of (suc zero) h p q r s = q
    byte_of (suc (suc zero)) h p q r s = r
    byte_of (suc (suc (suc zero))) h p q r s = s
    byte_of (suc (suc (suc (suc c)))) h p q r s = absurd (omega arith)

pub le32_same :
    (a b : Bytes) (o : ℕ) → ((c : ℕ) → c < 4 → a (o + c) ≡ b (o + c)) → le32 a o ≡ le32 b o
le32_same a b o h =
    let z : o + 0 ≡ o = omega arith in
    let first : a o ≡ b o = rw z at (h 0 (omega arith)) in
    omega (arith, first, h 1 (omega arith), h 2 (omega arith), h 3 (omega arith))

pub le16_same :
    (a b : Bytes) (o : ℕ) → ((c : ℕ) → c < 2 → a (o + c) ≡ b (o + c)) → le16 a o ≡ le16 b o
le16_same a b o h =
    let z : o + 0 ≡ o = omega arith in
    let first : a o ≡ b o = rw z at (h 0 (omega arith)) in omega (arith, first, h 1 (omega arith))

pub put_u16_ne : (m : Bytes) (o v k : ℕ) → (k < o) ⊎ (o + 2 ≤ k) → put_u16 m o v k ≡ m k
unfolding put_u16
put_u16_ne m o v k h = ground arith

pub le16-put_u16 : (m : Bytes) (o v : ℕ) → v < 2 ^ 16 → le16 (put_u16 m o v) o ≡ v
unfolding put_u16
le16-put_u16 m o v h = ground arith
