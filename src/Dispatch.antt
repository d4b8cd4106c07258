-- ===== src/Dispatch.antt =====
-- The menu dispatcher, decomp/src/dispatch/dispatch.c: the mode selects an arm, and an arm waits, calls
-- the worker, and ends with a return code.
pub mod Calls
pub mod Codes
pub mod Ends
pub mod Stamps
pub mod Steps
use gt2_recomp.Prelude.{
  ℕ, zero, suc, ◌+◌, ◌*◌, ◌^◌, Bool, true, false, ◌&&◌, ◌||◌, not, Option, none, some, Outcome, ok,
  err, ltb, leb, ◌==◌, if◌then◌else◌,
}
use gt2_recomp.Bytes.{Bytes, write, copy, le16, put_u16, u8, u32, sub32}
use gt2_recomp.Dispatch.Calls.{
  DispatchStatus, inval, unknown_arm, oob, Machine, Callbacks, Call, ◌>>=◌, ◌>>◌, done, refuse,
  obj_byte,
}

abbrev pub task_min : ℕ
task_min = 0xC000

abbrev pub t2 : ℕ
t2 = 0xBF7C

abbrev pub table1_n : ℕ
table1_n = 10

abbrev pub table2_n : ℕ
table2_n = 11

abbrev pub sub_data0 : ℕ
sub_data0 = 0x8005D348

-- gt2_dispatch_arm_t
pub data Arm : Type 0 where
  arm_a arm_b arm_c arm_d : Arm

-- gt2_dispatch_arm_locate
unfoldable pub arm_locate : ℕ → Outcome DispatchStatus Arm
arm_locate addr =
    if addr == 0x800177E8
    then ok arm_a
    else if addr == 0x8001782C
    then ok arm_b
    else if addr == 0x80017860
    then ok arm_c
    else if addr == 0x800178C8
    then ok arm_d
    else err unknown_arm

-- t2_ok
abbrev pub t2_ok : ℕ → ℕ → ℕ → Bool
t2_ok task_len off size = leb (t2 + off + size) task_len

-- the index that a mode byte gives in a table of `n` arms; -1 is `none`
unfoldable pub mode_index : ℕ → Bytes → Option ℕ
mode_index n task =
    let index = sub32 (task (t2 + 0xA)) 1 in if leb n index then none else some index

-- gt2_dispatch_select
unfoldable pub select : Bytes → Bytes → Option ℕ
select obj task = if obj 0x5D0 == 0 then none else mode_index table1_n task

-- gt2_dispatch_sub_select
unfoldable pub sub_select : Bytes → Option ℕ
sub_select task = mode_index table2_n task

-- The stamp loop of gt2_dispatch_sync0, `n` rounds from `v1` on, and the task block as it leaves it.
unfoldable pub stamp : ℕ → ℕ → ℕ → Bytes → Outcome DispatchStatus (Unit {0}) × Bytes
stamp zero task_len v1 task = (ok tt, task)
stamp (suc n) task_len v1 task =
    let rest = stamp n task_len (u32 (v1 + 0xD0)) (write task (t2 + v1 + 0x8C) 1) in
    if t2_ok task_len (u32 (v1 + 0x8C)) 1 then rest else (err oob, task)

-- how often the loop runs: the limit is a signed half word
unfoldable pub stamp_rounds : Bytes → ℕ
stamp_rounds obj = if ltb (le16 obj 0x5D4) 0x8000 then le16 obj 0x5D4 else 0

-- the bytes that are stored before the stamps
unfoldable pub sync_bytes : Bytes → ℕ → Bytes → Bytes
sync_bytes obj n task =
    write
      (write (write (write task (t2 + 0xA) (u8 n)) (t2 + 0xD) (u8 (le16 obj 0x5D6))) (t2 + 0x5A)
        (u8 (le16 obj 0x5D4)))
      (t2 + 0xF) (u8 (le16 obj 0x5D2))

-- gt2_dispatch_sync0
unfoldable pub sync0 : {W : Type 0} → ℕ → ℕ → ℕ → Call W (Unit {0})
sync0 task_len v n s =
    if ltb task_len task_min
    then some (err inval, s)
    else let obj = put_u16 s.obj 0x5D8 v in
      let (status, task) = stamp (stamp_rounds obj) task_len 0x5C (sync_bytes obj n s.task) in
      some (status, record { obj = obj; task = task; world = s.world })

-- v >= 0 && v < 2 of an int
abbrev pub settled : ℕ → Bool
settled v = ltb v (2 ^ 31) && ltb v 2

-- The loop that polls until the answer is 0 or 1, at most `fuel` times.
unfoldable pub poll_until : {W : Type 0} → Callbacks W → ℕ → ℕ → Call W (Unit {0})
poll_until cb zero blk s = none
poll_until cb (suc fuel) blk s =
    let (v, t) = cb.poll blk s in
    let rest = poll_until cb fuel blk t in if settled v then some (ok tt, t) else rest

-- gt2_dispatch_wait
unfoldable pub wait : {W : Type 0} → Callbacks W → ℕ → Bool → Call W (Unit {0})
wait cb fuel flag s =
    poll_until cb fuel 0x304
      (record { obj = write s.obj 0x38B (if flag then 1 else 0); task = s.task; world = s.world })

-- gt2_dispatch_sub_entry
unfoldable pub sub_entry : {W : Type 0} → Callbacks W → ℕ → ℕ → Call W ℕ
sub_entry cb fuel data_ptr = do
  (λ s. some (ok tt, cb.worker 0x38C data_ptr s))
  poll_until cb fuel 0x38C
  done 1

-- obj + 0x5D1 is set, and the code is 9
abbrev pub mark_done : {W : Type 0} → Call W ℕ
mark_done s = some (ok 9, record { obj = write s.obj 0x5D1 1; task = s.task; world = s.world })

-- where the mark of the halves `a0` and `a1` stands
abbrev pub mark_at : ℕ → ℕ → ℕ
mark_at a0 a1 = u32 (u32 (a0 * 16424 + 0x3C74) + u32 (a1 * 164))

-- gt2_dispatch_tail
unfoldable pub tail : {W : Type 0} → ℕ → Call W ℕ
tail task_len s =
    let a0 = le16 s.task (t2 + 0x582) in
    let a1 = le16 s.task (t2 + 0x584) in
    let ad = mark_at a0 a1 in
    if ltb task_len task_min
    then some (err inval, s)
    else if not (ltb a0 0x8000 && ltb a1 0x8000)
    then mark_done s
    else if ltb task_len (ad + 0xA8)
    then some (err oob, s)
    else if not (t2_ok task_len 0x58 2)
    then some (err oob, s)
    else mark_done (record {
      obj = s.obj;
      task = copy s.task (t2 + 0x58) (λ k. s.task (ad + 0xA6 + k)) 2;
      world = s.world;
    })

-- d_tail
unfoldable pub d_tail : {W : Type 0} → Callbacks W → ℕ → ℕ → Call W ℕ
d_tail cb fuel task_len = do wait cb fuel true; tail task_len

-- what the three first arms start with
unfoldable pub arm_head : {W : Type 0} → Callbacks W → ℕ → Call W ℕ
arm_head cb fuel = do wait cb fuel false; sub_entry cb fuel sub_data0

-- arm A from the flag on
unfoldable pub arm_a_end : {W : Type 0} → ℕ → ℕ → Call W ℕ
arm_a_end task_len flag = if flag == 0 then done 11 else if flag == 2 then done 7 else tail task_len

-- arm B from the flag on
unfoldable pub arm_b_end : {W : Type 0} → Callbacks W → ℕ → ℕ → ℕ → Call W ℕ
arm_b_end cb fuel task_len flag = if flag == 0 || flag == 2 then done 7 else d_tail cb fuel task_len

-- arm C from the flag on
unfoldable pub arm_c_end : {W : Type 0} → Callbacks W → ℕ → ℕ → ℕ → Call W ℕ
arm_c_end cb fuel task_len flag =
    if flag == 2
    then done 7
    else if flag == 0 || flag == 4
    then (do (λ s. sync0 task_len (s.task (t2 + 0xA)) 11 s); done 4)
    else d_tail cb fuel task_len

-- the switch of gt2_dispatch_arm_run
unfoldable pub arm_body : {W : Type 0} → Callbacks W → ℕ → ℕ → Arm → Call W ℕ
arm_body cb fuel task_len arm_a = do
  sub_rc ← arm_head cb fuel
  wait cb fuel true
  flag ← obj_byte 0x408
  arm_a_end task_len flag
arm_body cb fuel task_len arm_b = do
  sub_rc ← arm_head cb fuel
  flag ← obj_byte 0x408
  arm_b_end cb fuel task_len flag
arm_body cb fuel task_len arm_c = do
  sub_rc ← arm_head cb fuel
  flag ← obj_byte 0x408
  arm_c_end cb fuel task_len flag
arm_body cb fuel task_len arm_d = d_tail cb fuel task_len

-- gt2_dispatch_arm_run
unfoldable pub arm_run : {W : Type 0} → Callbacks W → ℕ → ℕ → Arm → Call W ℕ
arm_run cb fuel task_len arm s =
    if ltb task_len task_min then some (err inval, s) else arm_body cb fuel task_len arm s

-- the arm of an index, or the tail alone if there is none
unfoldable pub run_index : {W : Type 0} → Callbacks W → ℕ → ℕ → (ℕ → ℕ) → Option ℕ → Call W ℕ
run_index cb fuel task_len table none = tail task_len
run_index cb fuel task_len table (some idx) = elim (arm_locate (table idx)) [
  | err e ↦ refuse unknown_arm
  | ok arm ↦ arm_run cb fuel task_len arm
]

-- gt2_dispatch_run
unfoldable pub run : {W : Type 0} → Callbacks W → ℕ → ℕ → (ℕ → ℕ) → Call W ℕ
run cb fuel task_len table s =
    if ltb task_len task_min
    then some (err inval, s)
    else run_index cb fuel task_len table (select s.obj s.task) s
