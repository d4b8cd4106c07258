-- ===== src/Dispatch/Ends.antt =====
-- How the calls of decomp/src/dispatch/dispatch.c end, as relations between the machine at the start,
-- the result and the machine at the end: the offsets, addresses and flags as numbers.
use gt2_recomp.Prelude.{ℕ, suc, ◌+◌, ◌*◌, ◌≤◌, ◌<◌, ◌≡◌, ◌≢◌, ◌⊎◌, Outcome, ok, err, some}
use gt2_recomp.Bytes.{write, copy, le16, u32}
use gt2_recomp.Dispatch.Calls.{DispatchStatus, unknown_arm, oob, Machine, Callbacks}
use gt2_recomp.Dispatch.{Arm, arm_a, arm_b, arm_c, arm_d, sync0}

-- one of the next `n` polls of the block answers 0 or 1
pub data Answered {W : Type 0} (cb : Callbacks W) (blk : ℕ) : ℕ → Machine W → Type 0 where
  now : {n : ℕ} {s : Machine W} → (cb.poll blk s).0 < 2 → Answered cb blk (suc n) s
  later : {n : ℕ} {s : Machine W} → Answered cb blk n (cb.poll blk s).1 → Answered cb blk (suc n) s

-- Polling up to the first answer 0 or 1. A negative int is a word of 2 ^ 31 or more.
pub data Polled {W : Type 0} (cb : Callbacks W) (blk : ℕ) : Machine W → Machine W → Type 0 where
  answered : {s t : Machine W} → (cb.poll blk s).0 < 2 → (cb.poll blk s).1 ≡ t → Polled cb blk s t
  again :
      {s t : Machine W}
      → 2 ≤ (cb.poll blk s).0
      → Polled cb blk (cb.poll blk s).1 t
      → Polled cb blk s t

-- obj[o] = v
abbrev pub with_obj : {W : Type 0} → ℕ → ℕ → Machine W → Machine W
with_obj o v s = record { obj = write s.obj o v; task = s.task; world = s.world }

-- the wait with its flag, 0 or 1
abbrev pub Waits : {W : Type 0} → Callbacks W → ℕ → Machine W → Machine W → Type 0
Waits cb flag s t = Polled cb 0x304 (with_obj 0x38B flag s) t

-- what the arms A, B and C start with: a wait, and the worker with the polls that follow it
abbrev pub Heads : {W : Type 0} → Callbacks W → Machine W → Machine W → Type 0
Heads {W} cb s t =
    (u : Machine W) × Waits cb 0 s u × Polled cb 0x38C (cb.worker 0x38C 0x8005D348 u) t

-- the two half words of the menu state, and where their mark stands
abbrev pub half0 : {W : Type 0} → Machine W → ℕ
half0 s = le16 s.task 0xC4FE

abbrev pub half1 : {W : Type 0} → Machine W → ℕ
half1 s = le16 s.task 0xC500

abbrev pub mark : {W : Type 0} → Machine W → ℕ
mark s = u32 (u32 (half0 s * 16424 + 15476) + u32 (half1 s * 164))

-- the tail: 9, with the mark's two bytes moved to the menu state unless a half word is negative, or
-- out of the task block
pub data TailEnds {W : Type 0} (len : ℕ) (s : Machine W)
    : Outcome DispatchStatus ℕ → Machine W → Type 0 where
  unmarked : (0x8000 ≤ half0 s) ⊎ (0x8000 ≤ half1 s) → TailEnds len s (ok 9) (with_obj 0x5D1 1 s)
  marked :
      half0 s < 0x8000
      → half1 s < 0x8000
      → mark s + 168 ≤ len
      → 0xBFD6 ≤ len
      → TailEnds len s (ok 9) (
          with_obj 0x5D1 1 (record {
            obj = s.obj;
            task = copy s.task 0xBFD4 (λ k. s.task (mark s + 166 + k)) 2;
            world = s.world;
          }))
  outside :
      half0 s < 0x8000
      → half1 s < 0x8000
      → (len < mark s + 168) ⊎ (len < 0xBFD6)
      → TailEnds len s (err oob) s

-- The arms. The flag is the byte 0x408 of obj, read where the arm reads it.
pub data ArmEnds {W : Type 0} (cb : Callbacks W) (len : ℕ) (s : Machine W)
    : Arm → Outcome DispatchStatus ℕ → Machine W → Type 0 where
  a_zero :
      {u v : Machine W}
      → Heads cb s u
      → Waits cb 1 u v
      → v.obj 0x408 ≡ 0
      → ArmEnds cb len s arm_a (ok 11) v
  a_two :
      {u v : Machine W}
      → Heads cb s u
      → Waits cb 1 u v
      → v.obj 0x408 ≡ 2
      → ArmEnds cb len s arm_a (ok 7) v
  a_other :
      {u v t : Machine W} {res : Outcome DispatchStatus ℕ}
      → Heads cb s u
      → Waits cb 1 u v
      → v.obj 0x408 ≢ 0
      → v.obj 0x408 ≢ 2
      → TailEnds len v res t
      → ArmEnds cb len s arm_a res t
  b_seven :
      {u : Machine W}
      → Heads cb s u
      → (u.obj 0x408 ≡ 0) ⊎ (u.obj 0x408 ≡ 2)
      → ArmEnds cb len s arm_b (ok 7) u
  b_other :
      {u v t : Machine W} {res : Outcome DispatchStatus ℕ}
      → Heads cb s u
      → u.obj 0x408 ≢ 0
      → u.obj 0x408 ≢ 2
      → Waits cb 1 u v
      → TailEnds len v res t
      → ArmEnds cb len s arm_b res t
  c_two : {u : Machine W} → Heads cb s u → u.obj 0x408 ≡ 2 → ArmEnds cb len s arm_c (ok 7) u
  c_synced :
      {u t : Machine W}
      → Heads cb s u
      → (u.obj 0x408 ≡ 0) ⊎ (u.obj 0x408 ≡ 4)
      → sync0 len (u.task 0xBF86) 11 u ≡ some (ok tt, t)
      → ArmEnds cb len s arm_c (ok 4) t
  c_outside :
      {u t : Machine W}
      → Heads cb s u
      → (u.obj 0x408 ≡ 0) ⊎ (u.obj 0x408 ≡ 4)
      → sync0 len (u.task 0xBF86) 11 u ≡ some (err oob, t)
      → ArmEnds cb len s arm_c (err oob) t
  c_other :
      {u v t : Machine W} {res : Outcome DispatchStatus ℕ}
      → Heads cb s u
      → u.obj 0x408 ≢ 0
      → u.obj 0x408 ≢ 2
      → u.obj 0x408 ≢ 4
      → Waits cb 1 u v
      → TailEnds len v res t
      → ArmEnds cb len s arm_c res t
  d_only :
      {v t : Machine W} {res : Outcome DispatchStatus ℕ}
      → Waits cb 1 s v
      → TailEnds len v res t
      → ArmEnds cb len s arm_d res t

-- the addresses of the arms
pub data ArmAt (addr : ℕ) : Arm → Type 0 where
  at_a : addr ≡ 0x800177E8 → ArmAt addr arm_a
  at_b : addr ≡ 0x8001782C → ArmAt addr arm_b
  at_c : addr ≡ 0x80017860 → ArmAt addr arm_c
  at_d : addr ≡ 0x800178C8 → ArmAt addr arm_d

abbrev pub NoArm : ℕ → Type 0
NoArm addr = (addr ≢ 0x800177E8) × (addr ≢ 0x8001782C) × (addr ≢ 0x80017860) × (addr ≢ 0x800178C8)

-- A run. The gate is the byte 0x5D0 of obj, the mode the byte 0xBF86 of the task block, from 1 to 10.
pub data RunEnds {W : Type 0} (cb : Callbacks W) (len : ℕ) (table : ℕ → ℕ) (s : Machine W)
    : Outcome DispatchStatus ℕ → Machine W → Type 0 where
  no_arm :
      {t : Machine W} {res : Outcome DispatchStatus ℕ}
      → (s.obj 0x5D0 ≡ 0) ⊎ ((s.task 0xBF86 ≡ 0) ⊎ (10 < s.task 0xBF86))
      → TailEnds len s res t
      → RunEnds cb len table s res t
  unknown :
      (i : ℕ)
      → s.obj 0x5D0 ≢ 0
      → s.task 0xBF86 ≡ i + 1
      → i < 10
      → NoArm (table i)
      → RunEnds cb len table s (err unknown_arm) s
  of_arm :
      (i : ℕ) {arm : Arm} {t : Machine W} {res : Outcome DispatchStatus ℕ}
      → s.obj 0x5D0 ≢ 0
      → s.task 0xBF86 ≡ i + 1
      → i < 10
      → ArmAt (table i) arm
      → ArmEnds cb len s arm res t
      → RunEnds cb len table s res t
