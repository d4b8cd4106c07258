-- ===== src/Task/Memory.antt =====
-- Which bytes of the task memory the b3 initialisers write, and what the slots hold.
use gt2_recomp.Prelude.{
  ℕ, ◌+◌, ◌-◌, ◌*◌, ◌/◌, ◌%◌, ◌<◌, ◌≤◌, ◌≡◌, ◌∙◌, arith, ◌⊎◌, inl, inr, ◌==◌, ◌||◌, if◌then◌else◌,
  Bool-cases,
}
use gt2_recomp.Bytes.{times, Bytes, put_u16, put_u32, write}
use gt2_recomp.Bytes.Laws.{put_u16_ne, put_u32_ne}
use gt2_recomp.Task.{slot_round, slots_round, slot_init, b3_slots}
use gt2_recomp.Bytes.Rounds.{times-kept, times-written}

-- the offset lies outside the `len` bytes at `p`
abbrev pub Outside : ℕ → ℕ → ℕ → Type 0
Outside k p len = (k < p) ⊎ (p + len ≤ k)

pub write_ne : (m : Bytes) (o v k : ℕ) → Outside k o 1 → write m o v k ≡ m k
write_ne m o v k h = ground arith

pub slot_init-kept : (m : Bytes) (p k : ℕ) → Outside k p 0x14 → slot_init m p k ≡ m k
unfolding slot_init
slot_init-kept m p k h =
    put_u16_ne (times 5 (slot_round p) m) (p + 0x10) 0 k (ground arith)
    ∙ times-kept 5 (slot_round p) m k
        (λ i b lt. put_u32_ne b (p + i * 4) 0xFFFFFFFF k (ground arith))

-- byte `c` of a fresh slot: all ones, but for the half at 0x10
abbrev pub slot_byte : ℕ → ℕ
slot_byte c = if c == 0x10 || c == 0x11 then 0 else 0xFF

ones : (m : Bytes) (o c : ℕ) → c < 4 → put_u32 m o 0xFFFFFFFF (o + c) ≡ 0xFF
unfolding put_u32
ones m o c h = ground arith

slot_words :
    (m : Bytes) (p w c : ℕ) → w < 5 → c < 4 → times 5 (slot_round p) m (p + w * 4 + c) ≡ 0xFF
slot_words m p w c hw hc =
    times-written 5 w 0xFF (slot_round p) m (p + w * 4 + c) hw (λ b. ones b (p + w * 4) c hc)
      (λ i b lo hi. put_u32_ne b (p + i * 4) 0xFFFFFFFF (p + w * 4 + c) (inl (omega arith)))

zero_half : (m : Bytes) (o c : ℕ) → c < 2 → put_u16 m o 0 (o + c) ≡ 0
unfolding put_u16
zero_half m o c h = ground arith

slot_init-byte : (m : Bytes) (p c : ℕ) → c < 0x14 → slot_init m p (p + c) ≡ slot_byte c
unfolding slot_init
slot_init-byte m p c h = elim (Bool-cases (c == 0x10 || c == 0x11)) [
  | inl half ↦
      let e : p + c ≡ p + 0x10 + (c - 0x10) = ground (arith, half) in
      rw half
        (rw e (zero_half (times 5 (slot_round p) m) (p + 0x10) (c - 0x10) (ground (arith, half))))
  | inr word ↦
      let e : p + c / 4 * 4 + c % 4 ≡ p + c = omega arith in
      rw word (
        put_u16_ne (times 5 (slot_round p) m) (p + 0x10) 0 (p + c) (ground (arith, word))
        ∙ rw e at (slot_words m p (c / 4) (c % 4) (omega arith) (omega arith)))
]

-- After gt2_task_b3_slots each of the `count` slots, 0x24 apart from 0x218, holds four words of ones and
-- the word 0xFFFF0000, and every byte outside the slots is as it was.
pub b3_slots-filled :
    (m : Bytes) (count : ℕ)
    → ((i c : ℕ) → i < count → c < 0x14 → b3_slots m count (0x218 + i * 0x24 + c) ≡ slot_byte c)
      × ((k : ℕ)
          → ((i : ℕ) → i < count → Outside k (0x218 + i * 0x24) 0x14)
          → b3_slots m count k ≡ m k)
unfolding b3_slots
b3_slots-filled m count = (
  λ i c lt hc.
      times-written count i (slot_byte c) slots_round m (0x218 + i * 0x24 + c) lt
        (λ b. slot_init-byte b (0x218 + i * 0x24) c hc)
        (λ j b lo hi.
          slot_init-kept b (0x218 + j * 0x24) (0x218 + i * 0x24 + c) (inl (omega arith))),
  λ k out.
      times-kept count slots_round m k (λ i b lt. slot_init-kept b (0x218 + i * 0x24) k (out i lt)),
)
