-- ===== src/Dispatch/Codes.antt =====
-- gt2_dispatch_run returns, how, and with which code.
use gt2_recomp.Prelude.{
  ℕ, ◌+◌, ◌≤◌, ◌<◌, ◌≡◌, ◌≢◌, refl, ◌∙◌, Bool, true, false, ◌||◌, none, some, Outcome, ok, err, ltb,
  leb, ◌==◌, if◌then◌else◌, arith, Bool-cases, Outcome-cases, inl, inr, ◌⊎◌, ==→eq, ==→ne,
}
use gt2_recomp.Bytes.{sub32}
use gt2_recomp.Dispatch.{
  task_min, t2, Arm, arm_a, arm_b, arm_c, arm_d, arm_locate, mode_index, select, sync0, poll_until,
  wait, sub_entry, sub_data0, tail, d_tail, arm_head, arm_a_end, arm_b_end, arm_c_end, arm_body,
  arm_run, run_index, run,
}
use gt2_recomp.Dispatch.Calls.{
  DispatchStatus, unknown_arm, oob, Machine, Callbacks, Call, ◌>>=◌, done, obj_byte,
}
use gt2_recomp.Dispatch.Ends.{
  Answered, with_obj, Waits, Heads, TailEnds, ArmEnds, a_zero, a_two, a_other, b_seven, b_other,
  c_two, c_synced, c_outside, c_other, d_only, RunEnds, no_arm, unknown, of_arm,
}
use gt2_recomp.Dispatch.Steps.{
  Ends, after-ok, after-err, Ends-after, Ends-weaken, poll_until-Polled, tail-TailEnds,
  sync0-status, arm_locate-ArmAt, arm_locate-NoArm,
}

module _ {W : Type 0} (cb : Callbacks W) (fuel len : ℕ)
    (answers : (blk : ℕ) (s : Machine W) → Answered cb blk fuel s) (large : task_min ≤ len) where
  wait-Waits :
      (flag : ℕ) (b : Bool) (s : Machine W)
      → (if b then 1 else 0) ≡ flag
      → (t : Machine W) × (wait cb fuel b s ≡ some (ok tt, t)) × Waits cb flag s t
  unfolding wait
  wait-Waits flag b s e = rw (← e) (
      poll_until-Polled cb fuel 0x304 (with_obj 0x38B (if b then 1 else 0) s)
        (answers 0x304 (with_obj 0x38B (if b then 1 else 0) s)))

  head-Heads :
      (s : Machine W)
      → (rc : ℕ) × (t : Machine W) × (arm_head cb fuel s ≡ some (ok rc, t)) × Heads cb s t
  unfolding arm_head sub_entry
  head-Heads s =
      let (u, e, p) = wait-Waits 0 false s refl in
      let worked = cb.worker 0x38C sub_data0 u in
      let (t, f, q) = poll_until-Polled cb fuel 0x38C worked (answers 0x38C worked) in
      (
        1,
        t,
        after-ok (wait cb fuel false) (λ x. sub_entry cb fuel sub_data0) s u tt e
            ∙ after-ok (poll_until cb fuel 0x38C) (λ x. done 1) worked t tt f,
        (u, p, q),
      )

  d_tail-Ends :
      (s : Machine W)
      → Ends
          (λ res t. (v : Machine W) × Waits cb 1 s v × TailEnds len v res t)
          (d_tail cb fuel len)
          s
  unfolding d_tail
  d_tail-Ends s =
      let (v, e, p) = wait-Waits 1 true s refl in
      Ends-after (wait cb fuel true) (λ x. tail len) s v tt e
        (Ends-weaken (tail len) v (λ res t ends. (v, p, ends)) (tail-TailEnds len large v))

  module _ (s : Machine W) where
    a_end-ArmEnds :
        (u v : Machine W)
        → Heads cb s u
        → Waits cb 1 u v
        → Ends (ArmEnds cb len s arm_a) (arm_a_end len (v.obj 0x408)) v
    unfolding arm_a_end
    a_end-ArmEnds u v h w = elim (Bool-cases (v.obj 0x408 == 0)) [
      | inl zeroth ↦ (ok 11, v, rw zeroth refl, a_zero h w (==→eq _ _ zeroth))
      | inr a ↦ elim (Bool-cases (v.obj 0x408 == 2)) [
        | inl two ↦ (ok 7, v, rw (a, two) refl, a_two h w (==→eq _ _ two))
        | inr b ↦
            rw (a, b)
              (Ends-weaken (tail len) v (λ res t ends. a_other h w (==→ne _ _ a) (==→ne _ _ b) ends)
                (tail-TailEnds len large v))
      ]
    ]

    b_end-ArmEnds :
        (u : Machine W)
        → Heads cb s u
        → Ends (ArmEnds cb len s arm_b) (arm_b_end cb fuel len (u.obj 0x408)) u
    unfolding arm_b_end
    b_end-ArmEnds u h = elim (Bool-cases (u.obj 0x408 == 0 || u.obj 0x408 == 2)) [
      | inl seven ↦ (ok 7, u, rw seven refl, b_seven h (ground (arith, seven)))
      | inr on ↦
          let a : u.obj 0x408 ≢ 0 = ground (arith, on) in
          let b : u.obj 0x408 ≢ 2 = ground (arith, on) in
          rw on (
            Ends-weaken (d_tail cb fuel len) u (λ res t (v, w, ends). b_other h a b w ends)
              (d_tail-Ends u))
    ]

    c_end-ArmEnds :
        (u : Machine W)
        → Heads cb s u
        → Ends (ArmEnds cb len s arm_c) (arm_c_end cb fuel len (u.obj 0x408)) u
    unfolding arm_c_end
    c_end-ArmEnds u h = elim (Bool-cases (u.obj 0x408 == 2)) [
      | inl two ↦ (ok 7, u, rw two refl, c_two h (==→eq _ _ two))
      | inr b ↦ elim (Bool-cases (u.obj 0x408 == 0 || u.obj 0x408 == 4)) [
        | inr c ↦
            let a : u.obj 0x408 ≢ 0 = ground (arith, c) in
            let d : u.obj 0x408 ≢ 4 = ground (arith, c) in
            rw (b, c)
              (Ends-weaken (d_tail cb fuel len) u
                (λ res t (v, w, ends). c_other h a (==→ne _ _ b) d w ends) (d_tail-Ends u))
        | inl synced ↦
            let sync : Call W (Unit {0}) = λ m. sync0 len (m.task (t2 + 0xA)) 11 m in
            let (t, r) = sync0-status len (u.task (t2 + 0xA)) 11 large u in
            let flag : (u.obj 0x408 ≡ 0) ⊎ (u.obj 0x408 ≡ 4) = ground (arith, synced) in
            elim r [
              | inl good ↦ (
                ok 4,
                t,
                rw (b, synced) (after-ok sync (λ x. done 4) u t tt good),
                c_synced h flag good,
              )
              | inr bad ↦ (
                err oob,
                t,
                rw (b, synced) (after-err sync (λ x. done 4) u t oob bad),
                c_outside h flag bad,
              )
            ]
      ]
    ]

    body-ArmEnds : (arm : Arm) → Ends (ArmEnds cb len s arm) (arm_body cb fuel len arm) s
    unfolding arm_body
    body-ArmEnds arm_a =
        let (rc, u, e, h) = head-Heads s in
        let (v, f, w) = wait-Waits 1 true u refl in
        Ends-after (arm_head cb fuel)
          (λ x. wait cb fuel true >>= λ y. obj_byte 0x408 >>= λ flag. arm_a_end len flag) s u rc e
          (Ends-after (wait cb fuel true) (λ y. obj_byte 0x408 >>= λ flag. arm_a_end len flag) u v
            tt f (a_end-ArmEnds u v h w))
    body-ArmEnds arm_b =
        let (rc, u, e, h) = head-Heads s in
        Ends-after (arm_head cb fuel) (λ x. obj_byte 0x408 >>= λ flag. arm_b_end cb fuel len flag) s
          u rc e (b_end-ArmEnds u h)
    body-ArmEnds arm_c =
        let (rc, u, e, h) = head-Heads s in
        Ends-after (arm_head cb fuel) (λ x. obj_byte 0x408 >>= λ flag. arm_c_end cb fuel len flag) s
          u rc e (c_end-ArmEnds u h)
    body-ArmEnds arm_d =
        Ends-weaken (d_tail cb fuel len) s (λ res t (v, w, ends). d_only w ends) (d_tail-Ends s)

    arm_run-ArmEnds : (arm : Arm) → Ends (ArmEnds cb len s arm) (arm_run cb fuel len arm) s
    unfolding arm_run
    arm_run-ArmEnds arm =
        let enough : ltb len task_min ≡ false = ground arith in rw enough (body-ArmEnds arm)

    located :
        (table : ℕ → ℕ) (i : ℕ)
        → s.obj 0x5D0 ≢ 0
        → s.task 0xBF86 ≡ i + 1
        → i < 10
        → Ends (RunEnds cb len table s) (run_index cb fuel len table (some i)) s
    unfolding run_index
    located table i gate mode lt = elim (Outcome-cases (arm_locate (table i))) [
      | inl (arm, e) ↦
          rw (e, run_index)
            (Ends-weaken (arm_run cb fuel len arm) s
              (λ res t ends. of_arm i gate mode lt (arm_locate-ArmAt (table i) arm e) ends)
              (arm_run-ArmEnds arm))
      | inr (bad, e) ↦ (
        err unknown_arm,
        s,
        rw (e, run_index) refl,
        unknown i gate mode lt (arm_locate-NoArm (table i) bad e),
      )
    ]

    run_index-RunEnds :
        (table : ℕ → ℕ)
        → s.task 0xBF86 < 256
        → Ends (RunEnds cb len table s) (run_index cb fuel len table (select s.obj s.task)) s
    unfolding select mode_index
    run_index-RunEnds table byte = elim (Bool-cases (s.obj 0x5D0 == 0)) [
      | inl shut ↦ rw shut (without table (inl (==→eq _ _ shut)))
      | inr open_gate ↦ elim (Bool-cases (leb 10 (sub32 (s.task 0xBF86) 1))) [
        | inl none_of ↦ rw (open_gate, none_of) (without table (inr (ground (arith, none_of))))
        | inr mode ↦
            let i = sub32 (s.task 0xBF86) 1 in
            rw (open_gate, mode)
              (located table i (==→ne _ _ open_gate) (ground (arith, mode)) (ground (arith, mode)))
      ]
    ]
      where
        without :
            (table : ℕ → ℕ)
            → (s.obj 0x5D0 ≡ 0) ⊎ ((s.task 0xBF86 ≡ 0) ⊎ (10 < s.task 0xBF86))
            → Ends (RunEnds cb len table s) (run_index cb fuel len table none) s
        without table why =
            unfold run_index in
            Ends-weaken (tail len) s (λ res t ends. no_arm why ends) (tail-TailEnds len large s)

-- If the task block has its least size, its mode byte is a byte, and every poll loop is answered within
-- the given polls, a run returns, and ends as RunEnds says. With a gate of 0 or a mode outside 1 to 10 it is
-- the tail alone. An address in the table that is no arm gives GT2_DISPATCH_ERR_UNKNOWN_ARM. Else the
-- arm at the address of the mode waits, calls the worker and polls up to an answer of 0 or 1 (D only
-- waits), and its flag decides: A gives 11 for 0 and 7 for 2, B gives 7 for 0 and 2, C gives 7 for 2, and
-- for 0 and 4 what gt2_dispatch_sync0 does and 4, or OOB if that does. All else goes to the tail, B,
-- C and D after another wait. The tail gives 9, or OOB exactly for a mark outside the task block.
pub run-RunEnds :
    {W : Type 0} (cb : Callbacks W) (fuel len : ℕ) (table : ℕ → ℕ) (s : Machine W)
    → ((blk : ℕ) (m : Machine W) → Answered cb blk fuel m)
    → task_min ≤ len
    → s.task 0xBF86 < 256
    → (res : Outcome DispatchStatus ℕ) × (t : Machine W) × (run cb fuel len table s ≡ some (res, t))
      × RunEnds cb len table s res t
unfolding run
run-RunEnds cb fuel len table s answers large byte =
    let enough : ltb len task_min ≡ false = ground arith in
    let (res, t, e, r) = run_index-RunEnds cb fuel len answers large s table byte in
    (res, t, rw enough e, r)
