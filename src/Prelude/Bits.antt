-- ===== src/Prelude/Bits.antt =====
-- `|` of a number below 2 ^ k and a multiple of 2 ^ k is their sum.
use Prim.Native.Nat.{
  ℕ, zero, suc, ◌+◌, ◌*◌, ◌/◌, ◌%◌, ◌^◌, ◌<◌, ◌≤◌, max, digits, bit_or, bit_or-bitwise,
}
use mathlib.Core.Path.{◌≡◌, refl, ◌∙◌}
use native.Mathlib.Omega.{arith}

joined : ℕ → ℕ → ℕ → ℕ
joined n a b = digits (λ rest. rest) max n a b

joined-zero : (n b : ℕ) → joined n 0 b ≡ b
unfolding joined
joined-zero zero b = refl
joined-zero (suc n) b = refl

twice : (b q r : ℕ) → r ≡ q * 2 → b * r ≡ b * q * 2
twice b q r h = grind arith

pub twice_power : (k b : ℕ) → b * 2 ^ suc k ≡ b * 2 ^ k * 2
twice_power k b = twice b (2 ^ k) (2 ^ suc k) (omega arith)

joined-add : (k n a b p : ℕ) → p ≡ b * 2 ^ k → a < 2 ^ k → a ≤ n → joined n a p ≡ a + p
unfolding joined
joined-add k n zero b p e h le = omega (arith, joined-zero n p)
joined-add k zero (suc a) b p e h le = absurd (omega arith)
joined-add zero (suc n) (suc a) b p e h le = absurd (omega arith)
joined-add (suc k) (suc n) (suc a) b p e h le =
    let half : p / 2 ≡ b * 2 ^ k = omega (arith, e, twice_power k b) in
    let even : p % 2 ≡ 0 = omega (arith, e, twice_power k b) in
    let low = joined-add k n (suc a / 2) b (p / 2) half (omega arith) (omega arith) in
    omega (arith, low, even)

pub bit_or-add : (k a b : ℕ) → a < 2 ^ k → bit_or a (b * 2 ^ k) ≡ a + b * 2 ^ k
unfolding joined
bit_or-add k a b h =
    bit_or-bitwise a (b * 2 ^ k) ∙ joined-add k a a b (b * 2 ^ k) refl h (omega arith)
