-- ===== src/Tests/TaskTests.antt =====
-- The boot tasks on a zeroed task memory, and transfers of two small files.
use gt2_recomp.Prelude.{ℕ, ◌+◌, ◌-◌, ◌*◌, ◌<◌, ◌≡◌, ◌↔◌, refl, some, none, ok, err, arith}
use gt2_recomp.Bytes.{times, Bytes, zeros, copy, put_u16, put_u32, sector_floor}
use gt2_recomp.Vol.{tbl_entry}
use gt2_recomp.Task.{
  GatherSrc, B2Req, b2_q2slot, slot_init, mark_init, b3_slots, b3, queued, b2_queue, b2_complete,
  truncated, not_found,
}
use gt2_recomp.Task.Memory.{Outside, slot_byte, b3_slots-filled}
use gt2_recomp.Task.Phases.{b3-within, b3-slots}
use gt2_recomp.Task.Transfer.{
  Queueable, b2_queue-iff-Queueable, b2_complete-deposits, b2_complete-short,
}
use gt2_recomp.Tests.Samples.{tree}

abbrev counting : Bytes
counting k = k

abbrev sources : GatherSrc
sources = record { b0 = counting; b1 = counting; b2 = counting; b3 = counting; w = counting }

slot_tail : slot_init zeros 0 0x11 ≡ 0
unfolding slot_init times put_u16 put_u32
slot_tail = refl

slot_head : slot_init zeros 0 0x12 ≡ 0xFF
unfolding slot_init times put_u16 put_u32
slot_head = refl

mark_word : mark_init zeros 0 0x4014 ≡ 0x10
unfolding mark_init put_u16 put_u32
mark_word = refl

b3_slots-filled_here :
    ((i c : ℕ) → i < 126 → c < 0x14 → b3_slots counting 126 (0x218 + i * 0x24 + c) ≡ slot_byte c)
    × ((k : ℕ)
        → ((i : ℕ) → i < 126 → Outside k (0x218 + i * 0x24) 0x14)
        → b3_slots counting 126 k ≡ counting k)
b3_slots-filled_here = b3_slots-filled counting 126

b3-within_example : b3 counting sources 126 0xC000 ≡ counting 0xC000
b3-within_example = b3-within counting sources 126 0xC000 (omega arith) (omega arith)

b3-slots_here : b3 counting sources 126 (0x218 + 125 * 0x24 + 0x12) ≡ slot_byte 0x12
b3-slots_here = b3-slots counting sources 126 125 0x12 (omega arith) (omega arith) (omega arith)

-- every cell of the cache is file 2
abbrev cache : ℕ → ℕ
cache i = 2

short_cache : b2_queue cache 247 tree 473 4112 none ≡ err not_found
unfolding b2_queue
short_cache = refl

abbrev request : B2Req × ℕ
unfolding queued
request = queued 473 4112 none 2 64 70

b2_queue-iff-Queueable_here : (b2_queue cache 248 tree 473 4112 none ≡ ok request) ↔ (
    Queueable cache 248 tree
    × (request
        ≡ queued 473 4112 none
            (cache b2_q2slot)
            (tree.tbl (cache b2_q2slot))
            (tree.tbl (cache b2_q2slot + 1))))
b2_queue-iff-Queueable_here = b2_queue-iff-Queueable cache 248 tree 473 4112 none request

queues : b2_queue cache 248 tree 473 4112 none ≡ ok request
unfolding b2_queue tbl_entry
queues = refl

b2_complete-deposits_example :
    b2_complete (queued 473 4112 none 2 100 4200).0 (some counting) (4200 - 100) zeros
    ≡ ok (copy zeros 0 counting (sector_floor 4200 - 100))
b2_complete-deposits_example =
    b2_complete-deposits 473 4112 none 2 100 4200 counting zeros (omega arith) (omega arith)

b2_complete-short_here :
    b2_complete (queued 473 4112 none 2 64 70).0 (some counting) (70 - 64) zeros ≡ err truncated
b2_complete-short_here =
    b2_complete-short 473 4112 none 2 64 70 (some counting) zeros (omega arith) (omega arith)
      (omega arith)
