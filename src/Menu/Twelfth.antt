-- ===== src/Menu/Twelfth.antt =====
-- What the multiply-high idiom of the menu computes: a twelfth, rounded toward zero.
use gt2_recomp.Prelude.{ℕ, zero, suc, ap, ◌-◌, ◌/◌, ◌^◌, ◌≤◌, ◌<◌, ◌≡◌, ◌∙◌, arith}
use gt2_recomp.Bytes.{u32}
use gt2_recomp.Menu.{mulhi, div3}

div3_pos : (x : ℕ) → x < 2 ^ 31 → div3 x ≡ x / 12
unfolding div3 mulhi
div3_pos x h = ground arith

div3_neg : (m : ℕ) → 0 < m → m ≤ 2 ^ 31 → div3 (2 ^ 32 - m) ≡ u32 (2 ^ 32 - m / 12)
unfolding div3 mulhi
div3_neg m p h = ground arith

-- The idiom that the source calls a division by 3 divides by 12, toward zero: a word below 2 ^ 31 gives
-- its twelfth, and the negative of one gives the negative of that.
pub div3-twelfth :
    (m : ℕ) → m < 2 ^ 31 → (div3 m ≡ m / 12) × (div3 (u32 (2 ^ 32 - m)) ≡ u32 (2 ^ 32 - m / 12))
div3-twelfth zero h = (div3_pos 0 h, div3_pos 0 h)
div3-twelfth (suc m) h =
    let word : u32 (2 ^ 32 - suc m) ≡ 2 ^ 32 - suc m = omega arith in
    (div3_pos (suc m) h, ap div3 word ∙ div3_neg (suc m) (omega arith) (omega arith))
