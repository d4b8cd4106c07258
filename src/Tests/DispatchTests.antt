-- ===== src/Tests/DispatchTests.antt =====
-- A run of arm A whose polls are answered at the second time of asking.
use gt2_recomp.Prelude.{
  ℕ, ◌+◌, ◌-◌, ◌^◌, ◌≡◌, refl, Option, none, some, Outcome, ok, arith, ◌==◌, if◌then◌else◌,
  Bool-cases, inl, inr,
}
use gt2_recomp.Bytes.{zeros, put_u16}
use gt2_recomp.Dispatch.{
  t2, arm_locate, select, mode_index, run, run_index, arm_run, arm_body, arm_head, arm_a_end, wait,
  sub_entry, poll_until, sync0, sync_bytes, stamp_rounds,
}
use gt2_recomp.Dispatch.Calls.{DispatchStatus, Machine, Callbacks}
use gt2_recomp.Dispatch.Ends.{Answered, now, later, RunEnds}
use gt2_recomp.Dispatch.Codes.{run-RunEnds}
use gt2_recomp.Dispatch.Stamps.{Synced, sync0-Synced}

-- the world is whether the block was asked before
abbrev shy : Callbacks ℕ
shy = record {
  poll = λ blk s. (
    if s.world == 0 then 2 ^ 32 - 1 else 0,
    record { obj = s.obj; task = s.task; world = if s.world == 0 then 1 else 0 },
  );
  worker = λ blk data_ptr s. s;
}

shy-Answered : (blk : ℕ) (s : Machine ℕ) → Answered shy blk 2 s
shy-Answered blk s = elim (Bool-cases (s.world == 0)) [
  | inr asked ↦ now (rw asked (omega arith))
  | inl new ↦ later (now (rw new (omega arith)))
]

abbrev mode_one : Machine ℕ
mode_one = record {
  obj = λ k. if k == 0x5D0 then 1 else 0;
  task = λ k. if k == t2 + 0xA then 1 else 0;
  world = 0;
}

abbrev arms : ℕ → ℕ
arms i = 0x800177E8

run-RunEnds_example :
    (res : Outcome DispatchStatus ℕ) × (t : Machine ℕ) × (run shy 2 0xD000 arms mode_one
      ≡ some (res, t))
    × RunEnds shy 0xD000 arms mode_one res t
run-RunEnds_example =
    run-RunEnds shy 2 0xD000 arms mode_one shy-Answered (omega arith) (omega arith)

first_index : select mode_one.obj mode_one.task ≡ some 0
unfolding select mode_index
first_index = refl

abbrev three_stamps : Machine ℕ
three_stamps = record { obj = λ k. if k == 0x5D4 then 3 else 0; task = zeros; world = 0 }

sync0-Synced_here :
    (res : Outcome DispatchStatus (Unit {0})) × (t : Machine ℕ) × (sync0 0xD000 7 11 three_stamps
      ≡ some (res, t))
    × (t.obj ≡ put_u16 three_stamps.obj 0x5D8 7)
    × Synced ℕ 0xD000
        (stamp_rounds three_stamps.obj)
        (sync_bytes (put_u16 three_stamps.obj 0x5D8 7) 11 three_stamps.task)
        t.task
        res
sync0-Synced_here = sync0-Synced 0xD000 7 11 three_stamps (omega arith)

-- the code of arm A where the flag is 0
abbrev result : Option (Outcome DispatchStatus ℕ)
unfolding run
result = elim (run shy 2 0xD000 arms mode_one) [ none ↦ none | some (res, t) ↦ some res ]

arm_a_idles : result ≡ some (ok 11)
unfolding run run_index arm_run arm_body arm_head arm_a_end wait sub_entry poll_until select
    mode_index arm_locate
arm_a_idles = refl
