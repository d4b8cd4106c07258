-- ===== src/Mcd/Sums.antt =====
-- Checksums of frames.
use gt2_recomp.Prelude.{ℕ, zero, suc, ◌+◌, ◌<◌, ◌≡◌, refl, sym, ◌∙◌, arith}
use gt2_recomp.Bytes.{Bytes}
use gt2_recomp.Mcd.{xor_sum, frame_checksum}

-- the checksum depends on the summed bytes only
pub xor_sum_same :
    (a b : Bytes) (p n : ℕ)
    → ((c : ℕ) → c < n → a (p + c) ≡ b (p + c))
    → xor_sum a p n ≡ xor_sum b p n
unfolding xor_sum
xor_sum_same a b p zero h = refl
xor_sum_same a b p (suc n) h =
    rw (xor_sum_same a b p n (λ c lt. h c (omega arith)), h n (omega arith)) refl

-- the frame at `f` carries its checksum
abbrev pub Summed : Bytes → ℕ → Type 0
Summed m f = m (f + 0x7F) ≡ xor_sum m f 0x7F

frame_checksum-body : (m : Bytes) (f c : ℕ) → c < 0x7F → frame_checksum m f (f + c) ≡ m (f + c)
unfolding frame_checksum
frame_checksum-body m f c h = ground arith

frame_checksum-last : (m : Bytes) (f : ℕ) → frame_checksum m f (f + 0x7F) ≡ xor_sum m f 0x7F
unfolding frame_checksum
frame_checksum-last m f = ground arith

pub frame_checksum-Summed : (m : Bytes) (f : ℕ) → Summed (frame_checksum m f) f
frame_checksum-Summed m f =
    frame_checksum-last m f
    ∙ sym (xor_sum_same (frame_checksum m f) m f 0x7F (λ c h. frame_checksum-body m f c h))

pub Summed-same :
    (a b : Bytes) (f : ℕ) → ((c : ℕ) → c < 0x80 → a (f + c) ≡ b (f + c)) → Summed b f → Summed a f
Summed-same a b f h s =
    h 0x7F (omega arith) ∙ s ∙ sym (xor_sum_same a b f 0x7F (λ c lt. h c (omega arith)))
