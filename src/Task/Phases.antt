-- ===== src/Task/Phases.antt =====
-- The five phases of b3 together: they stay inside the task memory, and the slots survive the rest.
use gt2_recomp.Prelude.{ℕ, ◌+◌, ◌*◌, ◌<◌, ◌≤◌, ◌≡◌, ◌∙◌, arith, inl, inr}
use gt2_recomp.Bytes.{Bytes, write, fill, put_u16, put_u32}
use gt2_recomp.Bytes.Laws.{put_u16_ne, put_u32_ne}
use gt2_recomp.Task.{
  slot_init, block_round, block_init, list_round, list_init, big_init, mark_init, fixed_bytes,
  gather_record, GatherSrc, b3_gather, b3_marks, b3_slots, b3_blocks, b3_tails, b3, inner_round,
  outer_round,
}
use gt2_recomp.Bytes.Rounds.{times-kept}
use gt2_recomp.Task.Memory.{Outside, slot_byte, write_ne, slot_init-kept, b3_slots-filled}

fill_ne : (m : Bytes) (o v len k : ℕ) → Outside k o len → fill m o v len k ≡ m k
fill_ne m o v len k h = ground arith

block_init-kept : (m : Bytes) (p k : ℕ) → Outside k p 0xA4 → block_init m p k ≡ m k
unfolding block_init
block_init-kept m p k h =
    times-kept 5 (block_round p) (write (write (write m (p + 2) 0) (p + 1) 0) p 0) k (λ i b lt.
      write_ne (slot_init b (p + 4 + i * 0x14)) (p + (0x68 + i * 0xC)) 0 k (ground arith)
      ∙ slot_init-kept b (p + 4 + i * 0x14) k (ground arith))
    ∙ write_ne (write (write m (p + 2) 0) (p + 1) 0) p 0 k (ground arith)
    ∙ write_ne (write m (p + 2) 0) (p + 1) 0 k (ground arith)
    ∙ write_ne m (p + 2) 0 k (ground arith)

b3_blocks-kept : (m : Bytes) (k : ℕ) → Outside k 0x1418 0x2670 → b3_blocks m k ≡ m k
unfolding b3_blocks
b3_blocks-kept m k h = times-kept 6 outer_round m k (λ o b lt.
    times-kept 10 (inner_round o) b k
      (λ i c lt'. block_init-kept c (0x1418 + o * 0x668 + i * 0xA4) k (ground arith)))

list_init-kept : (m : Bytes) (p k : ℕ) → Outside k p 0xA4 → list_init m p k ≡ m k
unfolding list_init
list_init-kept m p k h =
    times-kept 8 (list_round p) (fill m p 0 0xA4) k
      (λ i b lt. put_u32_ne b (p + 8 + i * 0x14) 0xFFFFFFFF k (ground arith))
    ∙ fill_ne m p 0 0xA4 k h

big_init-kept : (m : Bytes) (p k : ℕ) → Outside k p 0x160 → big_init m p k ≡ m k
unfolding big_init
big_init-kept m p k h =
    put_u32_ne (fill m p 0 0x160) (p + 0x40) 1 k (ground arith) ∙ fill_ne m p 0 0x160 k h

-- the tails write the big record below the slots and the lists above the blocks
b3_tails-kept :
    (m : Bytes) (k : ℕ) → Outside k 0xB8 0x160 → Outside k 0x3A88 0x1EC → b3_tails m k ≡ m k
unfolding b3_tails
b3_tails-kept m k h l =
    big_init-kept (list_init (list_init (list_init m 0x3A88) 0x3B2C) 0x3BD0) 0xB8 k h
    ∙ list_init-kept (list_init (list_init m 0x3A88) 0x3B2C) 0x3BD0 k (ground arith)
    ∙ list_init-kept (list_init m 0x3A88) 0x3B2C k (ground arith)
    ∙ list_init-kept m 0x3A88 k (ground arith)

mark_init-kept : (m : Bytes) (p k : ℕ) → p + 0x401C ≤ k → mark_init m p k ≡ m k
unfolding mark_init
mark_init-kept m p k h =
    write_ne (put_u32 (put_u16 (put_u16 m p 0) (p + 0x4018) 0xFFFF) (p + 0x4014) 0x2710)
      (p + 0x401B) 0 k (inr (omega arith))
    ∙ put_u32_ne (put_u16 (put_u16 m p 0) (p + 0x4018) 0xFFFF) (p + 0x4014) 0x2710 k
        (inr (omega arith))
    ∙ put_u16_ne (put_u16 m p 0) (p + 0x4018) 0xFFFF k (inr (omega arith))
    ∙ put_u16_ne m p 0 k (inr (omega arith))

b3_marks-kept : (m : Bytes) (k : ℕ) → 0xBCB8 ≤ k → b3_marks m k ≡ m k
unfolding b3_marks fixed_bytes
b3_marks-kept m k h =
    mark_init-kept (mark_init (fixed_bytes m) 0x3C74) (0x3C74 + 0x4028) k (omega arith)
    ∙ mark_init-kept (fixed_bytes m) 0x3C74 k (omega arith)
    ∙ ground arith

gather_record-kept :
    (src : GatherSrc) (i : ℕ) (m : Bytes) (k : ℕ) → i < 2 → 0xAE ≤ k → gather_record src i m k ≡ m k
unfolding gather_record
gather_record-kept src i m k lt h = ground arith

b3_gather-kept : (m : Bytes) (src : GatherSrc) (k : ℕ) → 0xB6 ≤ k → b3_gather m src k ≡ m k
unfolding b3_gather
b3_gather-kept m src k h =
    times-kept 2 (gather_record src) (fill m 0 0 0xB6) k
      (λ i b lt. gather_record-kept src i b k lt (omega arith))
    ∙ fill_ne m 0 0 0xB6 k (inr (omega arith))

-- For a parsed count that the boot state admits, no phase of b3 writes at or past the end of the task
-- memory, 0xC000.
pub b3-within :
    (m : Bytes) (src : GatherSrc) (count k : ℕ) → count ≤ 256 → 0xC000 ≤ k → b3 m src count k ≡ m k
unfolding b3
b3-within m src count k h p =
    let marked = b3_marks (b3_gather m src) in
    b3_tails-kept (b3_blocks (b3_slots marked count)) k (inr (omega arith)) (inr (omega arith))
    ∙ b3_blocks-kept (b3_slots marked count) k (inr (omega arith))
    ∙ (b3_slots-filled (b3_marks (b3_gather m src)) count).1 k (λ i lt. inr (omega arith))
    ∙ b3_marks-kept (b3_gather m src) k (omega arith)
    ∙ b3_gather-kept m src k (omega arith)

-- With at most 128 slots, as many as fit before the blocks, every slot is still fresh when the five
-- phases are done.
pub b3-slots :
    (m : Bytes) (src : GatherSrc) (count i c : ℕ)
    → count ≤ 128
    → i < count
    → c < 0x14
    → b3 m src count (0x218 + i * 0x24 + c) ≡ slot_byte c
unfolding b3
b3-slots m src count i c h lt hc =
    let marked = b3_marks (b3_gather m src) in
    b3_tails-kept (b3_blocks (b3_slots marked count)) (0x218 + i * 0x24 + c) (inr (omega arith))
      (inl (omega arith))
    ∙ b3_blocks-kept (b3_slots marked count) (0x218 + i * 0x24 + c) (inl (omega arith))
    ∙ (b3_slots-filled (b3_marks (b3_gather m src)) count).0 i c lt hc
