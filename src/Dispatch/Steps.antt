-- ===== src/Dispatch/Steps.antt =====
-- What the parts of a dispatcher call come to: calls in sequence, the polls, the tail, the stamps' status
-- and the addresses of the arms.
use gt2_recomp.Prelude.{
  ℕ, zero, suc, ◌+◌, ◌≤◌, ◌<◌, ◌≡◌, refl, ◌∙◌, true, false, ◌&&◌, some, Outcome, ok, err, ltb, leb,
  arith, Bool-cases, inl, inr, ◌⊎◌,
}
use gt2_recomp.Bytes.{Bytes, write, put_u16, u32}
use gt2_recomp.Dispatch.{
  task_min, t2, Arm, arm_a, arm_b, arm_c, arm_d, arm_locate, stamp, stamp_rounds, sync_bytes, sync0,
  settled, poll_until, tail,
}
use gt2_recomp.Dispatch.Calls.{DispatchStatus, oob, Machine, Callbacks, Call, ◌>>=◌}
use gt2_recomp.Dispatch.Ends.{
  Answered, now, later, Polled, answered, again, with_obj, half0, half1, mark, TailEnds, unmarked,
  marked, outside, ArmAt, at_a, at_b, at_c, at_d, NoArm,
}

-- a call that returns, with its result and the machine that it leaves in `P`
abbrev pub Ends :
    {W A : Type 0} → (Outcome DispatchStatus A → Machine W → Type 0) → Call W A → Machine W → Type 0
Ends {W} {A} P c s =
    (res : Outcome DispatchStatus A) × (t : Machine W) × (c s ≡ some (res, t)) × P res t

pub after-ok :
    {W A B : Type 0} (c : Call W A) (k : A → Call W B) (s t : Machine W) (a : A)
    → c s ≡ some (ok a, t)
    → (c >>= k) s ≡ k a t
after-ok c k s t a e = rw (e, ◌>>=◌) refl

pub after-err :
    {W A B : Type 0} (c : Call W A) (k : A → Call W B) (s t : Machine W) (e : DispatchStatus)
    → c s ≡ some (err e, t)
    → (c >>= k) s ≡ some (err e, t)
after-err c k s t e h = rw (h, ◌>>=◌) refl

-- a call that has led to `a` at `t`, and what comes next
pub Ends-after :
    {W A B : Type 0} {P : Outcome DispatchStatus B → Machine W → Type 0} (c : Call W A)
    (k : A → Call W B) (s t : Machine W) (a : A)
    → c s ≡ some (ok a, t)
    → Ends P (k a) t
    → Ends P (c >>= k) s
Ends-after c k s t a e (res, u, r, held) = (res, u, after-ok c k s t a e ∙ r, held)

pub Ends-weaken :
    {W A : Type 0} {P Q : Outcome DispatchStatus A → Machine W → Type 0} (c : Call W A)
    (s : Machine W)
    → ((res : Outcome DispatchStatus A) (t : Machine W) → P res t → Q res t)
    → Ends P c s
    → Ends Q c s
Ends-weaken c s f (res, t, e, h) = (res, t, e, f res t h)

settled_iff : (v : ℕ) → ((settled v ≡ true) × (v < 2)) ⊎ ((settled v ≡ false) × (2 ≤ v))
settled_iff v = elim (Bool-cases (ltb v 2)) [
  | inl small ↦ inl (ground (arith, small), ground (arith, small))
  | inr large ↦ inr (ground (arith, large), ground (arith, large))
]

pub poll_until-Polled :
    {W : Type 0} (cb : Callbacks W) (fuel blk : ℕ) (s : Machine W)
    → Answered cb blk fuel s
    → (t : Machine W) × (poll_until cb fuel blk s ≡ some (ok tt, t)) × Polled cb blk s t
unfolding poll_until
poll_until-Polled cb zero blk s r = elim r [ ]
poll_until-Polled cb (suc n) blk s (now h) = elim (settled_iff (cb.poll blk s).0) [
  | inl (here, lt) ↦ ((cb.poll blk s).1, rw here refl, answered lt refl)
  | inr (on, le) ↦ absurd (omega (arith, h, le))
]
poll_until-Polled cb (suc n) blk s (later r) = elim (settled_iff (cb.poll blk s).0) [
  | inl (here, lt) ↦ ((cb.poll blk s).1, rw here refl, answered lt refl)
  | inr (on, le) ↦
      let (t, e, p) = poll_until-Polled cb n blk (cb.poll blk s).1 r in (t, rw on e, again le p)
]

pub tail-TailEnds :
    {W : Type 0} (len : ℕ) → task_min ≤ len → (s : Machine W) → Ends (TailEnds len s) (tail len) s
unfolding tail
tail-TailEnds len h s =
    let large : ltb len task_min ≡ false = ground arith in
    elim (Bool-cases (ltb (half0 s) 0x8000 && ltb (half1 s) 0x8000)) [
      | inr negative ↦
          (ok 9, with_obj 0x5D1 1 s, rw (large, negative) refl, unmarked (ground (arith, negative)))
      | inl halves ↦
          let p : half0 s < 0x8000 = ground (arith, halves) in
          let q : half1 s < 0x8000 = ground (arith, halves) in
          elim (Bool-cases (ltb len (mark s + 0xA8))) [
            | inl out ↦
                (err oob, s, rw (large, halves, out) refl, outside p q (inl (ground (arith, out))))
            | inr inside ↦ elim (Bool-cases (leb (t2 + 0x58 + 2) len)) [
              | inl fits ↦ (
                ok 9,
                _,
                rw (large, halves, inside, fits) refl,
                marked p q (ground (arith, inside)) (ground (arith, fits)),
              )
              | inr short ↦ (
                err oob,
                s,
                rw (large, halves, inside, short) refl,
                outside p q (inr (ground (arith, short))),
              )
            ]
          ]
    ]

stamp-status :
    (n len v1 : ℕ) (task : Bytes)
    → ((stamp n len v1 task).0 ≡ ok tt) ⊎ ((stamp n len v1 task).0 ≡ err oob)
unfolding stamp
stamp-status zero len v1 task = inl refl
stamp-status (suc n) len v1 task = elim (Bool-cases (leb (t2 + u32 (v1 + 0x8C) + 1) len)) [
  | inr out ↦ rw out (inr refl)
  | inl fits ↦ rw fits (stamp-status n len (u32 (v1 + 0xD0)) (write task (t2 + v1 + 0x8C) 1))
]

pub sync0-status :
    {W : Type 0} (len v n : ℕ)
    → task_min ≤ len
    → (s : Machine W)
    → (t : Machine W) × ((sync0 len v n s ≡ some (ok tt, t))
        ⊎ (sync0 len v n s ≡ some (err oob, t)))
unfolding sync0
sync0-status len v n h s =
    let large : ltb len task_min ≡ false = ground arith in
    let obj = put_u16 s.obj 0x5D8 v in
    let out = stamp (stamp_rounds obj) len 0x5C (sync_bytes obj n s.task) in
    (
      record { obj = obj; task = out.1; world = s.world },
      elim (stamp-status (stamp_rounds obj) len 0x5C (sync_bytes obj n s.task)) [
        | inl good ↦ inl (rw (large, good) refl)
        | inr bad ↦ inr (rw (large, bad) refl)
      ],
    )

pub arm_locate-ArmAt : (addr : ℕ) (arm : Arm) → arm_locate addr ≡ ok arm → ArmAt addr arm
unfolding arm_locate
arm_locate-ArmAt addr arm_a h = at_a (ground arith)
arm_locate-ArmAt addr arm_b h = at_b (ground arith)
arm_locate-ArmAt addr arm_c h = at_c (ground arith)
arm_locate-ArmAt addr arm_d h = at_d (ground arith)

pub arm_locate-NoArm : (addr : ℕ) (e : DispatchStatus) → arm_locate addr ≡ err e → NoArm addr
unfolding arm_locate
arm_locate-NoArm addr e h = (ground arith, ground arith, ground arith, ground arith)
