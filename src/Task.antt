-- ===== src/Task.antt =====
-- The boot tasks, decomp/src/task/task.c: the initialisers of the task memory, and the queued transfer
-- of /sound/sys.ins. A pointer into the task memory is an offset.
pub mod Memory
pub mod Phases
pub mod Transfer
pub mod Boot
use gt2_recomp.Prelude.{
  ℕ, zero, suc, ◌+◌, ◌-◌, ◌*◌, ◌/◌, ◌%◌, ◌^◌, Bool, true, false, ◌||◌, not, Option, none, some,
  Outcome, ok, err, ◌>>=◌, ◌>>◌, guard, ltb, leb, ◌==◌, if◌then◌else◌,
}
use gt2_recomp.Bytes.{
  times, Bytes, zeros, write, copy, fill, put_u16, put_u32, le32, u32, sub32, sector_floor,
}
use gt2_recomp.Vol.{Vol, tbl_entry}

-- gt2_task_mark_init
unfoldable pub mark_init : Bytes → ℕ → Bytes
mark_init m p =
    write (put_u32 (put_u16 (put_u16 m p 0) (p + 0x4018) 0xFFFF) (p + 0x4014) 0x2710) (p + 0x401B) 0

abbrev pub slot_round : ℕ → ℕ → Bytes → Bytes
slot_round p i m = put_u32 m (p + i * 4) 0xFFFFFFFF

-- gt2_task_slot_init
unfoldable pub slot_init : Bytes → ℕ → Bytes
slot_init m p = put_u16 (times 5 (slot_round p) m) (p + 0x10) 0

abbrev pub block_round : ℕ → ℕ → Bytes → Bytes
block_round p i m = write (slot_init m (p + 4 + i * 0x14)) (p + (0x68 + i * 0xC)) 0

-- gt2_task_block_init
unfoldable pub block_init : Bytes → ℕ → Bytes
block_init m p = times 5 (block_round p) (write (write (write m (p + 2) 0) (p + 1) 0) p 0)

abbrev pub list_round : ℕ → ℕ → Bytes → Bytes
list_round p i m = put_u32 m (p + 8 + i * 0x14) 0xFFFFFFFF

-- gt2_task_list_init
unfoldable pub list_init : Bytes → ℕ → Bytes
list_init m p = times 8 (list_round p) (fill m p 0 0xA4)

-- gt2_task_big_init
unfoldable pub big_init : Bytes → ℕ → Bytes
big_init m p = put_u32 (fill m p 0 0x160) (p + 0x40) 1

-- gt2_task_gather_src_t
pub record GatherSrc : Type 0 where
  pub b0 : Bytes
  pub b1 : Bytes
  pub b2 : Bytes
  pub b3 : Bytes
  pub w : Bytes

gather_record : GatherSrc → ℕ → Bytes → Bytes
gather_record src i m =
    let r = 0xA + i * 0x52 in
    copy
      (copy (copy (copy (copy m r src.b0 11) (r + 0xB) src.b1 11) (r + 0x16) src.b2 11) (r + 0x21)
        src.b3 11)
      (r + 0x3E) src.w 20

-- gt2_task_b3_gather at offset 0
unfoldable pub b3_gather : Bytes → GatherSrc → Bytes
unfolding gather_record times
b3_gather m src = times 2 (gather_record src) (fill m 0 0 0xB6)

fixed_bytes : Bytes → Bytes
fixed_bytes m =
    let a = write (write m 0xB3 0xF0) 0xB4 0xC0 in
    let b = write (write (write a 0xB5 1) 0xB2 1) 0xB1 1 in
    let c = write (write (write b 0 1) 0xAF 0) 0xAE 0 in
    write (write (write (write (write (write c 2 0) 3 2) 4 1) 5 0) 6 2) 8 1

-- gt2_task_b3_marks
unfoldable pub b3_marks : Bytes → Bytes
unfolding fixed_bytes mark_init
b3_marks m = mark_init (mark_init (fixed_bytes m) 0x3C74) (0x3C74 + 0x4028)

abbrev pub slots_round : ℕ → Bytes → Bytes
slots_round i m = slot_init m (0x218 + i * 0x24)

-- gt2_task_b3_slots
unfoldable pub b3_slots : Bytes → ℕ → Bytes
b3_slots m count = times count slots_round m

abbrev pub inner_round : ℕ → ℕ → Bytes → Bytes
inner_round o i m = block_init m (0x1418 + o * 0x668 + i * 0xA4)

abbrev pub outer_round : ℕ → Bytes → Bytes
outer_round o m = times 10 (inner_round o) m

-- gt2_task_b3_blocks
unfoldable pub b3_blocks : Bytes → Bytes
b3_blocks m = times 6 outer_round m

-- gt2_task_b3_tails
unfoldable pub b3_tails : Bytes → Bytes
b3_tails m = big_init (list_init (list_init (list_init m 0x3A88) 0x3B2C) 0x3BD0) 0xB8

-- the five phases in the order of gt2_task_boot_run
unfoldable pub b3 : Bytes → GatherSrc → ℕ → Bytes
b3 m src count = b3_tails (b3_blocks (b3_slots (b3_marks (b3_gather m src)) count))

-- gt2_task_status_t without its OK. GT2_VOL_ERR_IO, which gt2_task_b2_queue returns by mistake, has the
-- value of `inval`.
pub data TaskStatus : Type 0 where
  inval no_mem io not_found nospace truncated bad_data : TaskStatus

-- gt2_task_b2_req_t
pub record B2Req : Type 0 where
  pub dst : ℕ
  pub desc_len : ℕ
  pub tag : ℕ
  pub tbl_idx : ℕ
  pub lba : ℕ
  pub xfer_len : ℕ

abbrev pub b2_dst_addr : ℕ
b2_dst_addr = 0x801E2CF0

abbrev pub b2_desc_len : ℕ
b2_desc_len = 0x200

abbrev pub b2_q2slot : ℕ
b2_q2slot = 247

-- `(w + 0x1F) & ~0xF` on u32
abbrev pub heap_bump : ℕ → ℕ
heap_bump w = u32 (w + 0x1F) / 16 * 16

dst_word : Option Bytes → ℕ
dst_word none = 0
dst_word (some dst16) = le32 dst16 0

-- what gt2_task_b2_queue writes for the range from `start` to `end` of file `idx`: the request, which
-- repeats the descriptor's words, and the new heap cell
unfoldable pub queued : ℕ → ℕ → Option Bytes → ℕ → ℕ → ℕ → B2Req × ℕ
unfolding dst_word
queued lba_cell heap dst16 idx start end = (
  record {
    dst = b2_dst_addr;
    desc_len = b2_desc_len;
    tag = heap;
    tbl_idx = idx;
    lba = u32 (lba_cell + start / 2 ^ 11);
    xfer_len = sub32 (sector_floor end) start;
  },
  u32 (heap + heap_bump (dst_word dst16)),
)

tbl_or_io : Vol → ℕ → Outcome TaskStatus ℕ
tbl_or_io v i = elim (tbl_entry v i) [ ok x ↦ ok x | err e ↦ err inval ]

-- gt2_task_b2_queue over the first `nq2` cells of `q2`
unfoldable pub b2_queue : (ℕ → ℕ) → ℕ → Vol → ℕ → ℕ → Option Bytes → Outcome TaskStatus (B2Req × ℕ)
unfolding queued tbl_or_io
b2_queue q2 nq2 v lba_cell heap dst16 = do
  guard (ltb b2_q2slot nq2) not_found
  guard (not (ltb (q2 b2_q2slot) 2 || leb v.data_count (q2 b2_q2slot + 1))) not_found
  start ← tbl_or_io v (q2 b2_q2slot)
  end ← tbl_or_io v (q2 b2_q2slot + 1)
  guard (leb start end) truncated
  ok (queued lba_cell heap dst16 (q2 b2_q2slot) start end)

-- gt2_task_b2_complete; `none` is a NULL file
unfoldable pub b2_complete : B2Req → Option Bytes → ℕ → Bytes → Outcome TaskStatus Bytes
b2_complete req none file_len dst =
    if ltb file_len req.xfer_len
    then err truncated
    else if ltb 0 file_len
    then err inval
    else ok dst
b2_complete req (some file) file_len dst =
    if ltb file_len req.xfer_len then err truncated else ok (copy dst 0 file req.xfer_len)
