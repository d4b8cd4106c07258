-- ===== src/Dispatch/Stamps.antt =====
-- What gt2_dispatch_sync0 and gt2_dispatch_tail write, and when they refuse.
use gt2_recomp.Prelude.{
  ℕ, zero, suc, ◌+◌, ◌*◌, ◌^◌, ◌≤◌, ◌<◌, ◌≡◌, ◌≢◌, refl, ◌∙◌, false, some, Outcome, ok, err, ltb,
  leb, arith, Bool-cases, inl, inr,
}
use gt2_recomp.Bytes.{Bytes, write, put_u16, u32}
use gt2_recomp.Dispatch.{task_min, t2, stamp, stamp_rounds, sync_bytes, sync0}
use gt2_recomp.Dispatch.Calls.{DispatchStatus, oob, Machine}

-- stamp `k` of those from `v1` on
abbrev stamp_at : ℕ → ℕ → ℕ
stamp_at v1 k = t2 + v1 + 0x8C + k * 0xD0

-- the task block after `n` stamps from `v1` on
pub record Stamped (n v1 : ℕ) (task out : Bytes) : Type 0 where
  pub stamps : (k : ℕ) → k < n → out (t2 + v1 + 0x8C + k * 0xD0) ≡ 1
  pub kept : (x : ℕ) → ((k : ℕ) → k < n → x ≢ t2 + v1 + 0x8C + k * 0xD0) → out x ≡ task x

Stamped-suc :
    (n v1 : ℕ) (task out : Bytes)
    → Stamped n (v1 + 0xD0) (write task (t2 + v1 + 0x8C) 1) out
    → Stamped (suc n) v1 task out
Stamped-suc n v1 task out s = record {
  stamps = at;
  kept = λ x apart.
      let first = apart 0 (omega arith) in
      s.kept x (λ k lt e. apart (suc k) (omega arith) (omega arith)) ∙ ground (arith, first);
}
  where
    at : (k : ℕ) → k < suc n → out (t2 + v1 + 0x8C + k * 0xD0) ≡ 1
    at zero lt =
        let e : t2 + v1 + 0x8C + 0 * 0xD0 ≡ t2 + v1 + 0x8C = omega arith in
        rw e (s.kept (t2 + v1 + 0x8C) (λ k lt. omega arith) ∙ ground arith)
    at (suc k) lt =
        let e : t2 + v1 + 0x8C + suc k * 0xD0 ≡ t2 + (v1 + 0xD0) + 0x8C + k * 0xD0 = omega arith in
        rw e (s.stamps k (omega arith))

-- all of the `n` stamps from `v1` on are in a block of `len` bytes
abbrev pub Fits : ℕ → ℕ → ℕ → Type 0
Fits n v1 len = (k : ℕ) → k < n → t2 + v1 + 0x8C + k * 0xD0 < len

data StampRun (n len v1 : ℕ) (task : Bytes)
    : Outcome DispatchStatus (Unit {0}) × Bytes → Type 0 where
  all : (out : Bytes) → Fits n v1 len → Stamped n v1 task out → StampRun n len v1 task (ok tt, out)
  left : (out : Bytes) → ¬ (Fits n v1 len) → StampRun n len v1 task (err oob, out)

StampRun-suc :
    (n len v1 : ℕ) (task : Bytes) (o : Outcome DispatchStatus (Unit {0}) × Bytes)
    → t2 + v1 + 0x8C < len
    → StampRun n len (v1 + 0xD0) (write task (t2 + v1 + 0x8C) 1) o
    → StampRun (suc n) len v1 task o
StampRun-suc n len v1 task (ok _, _) h (all out f s) = all out fits (Stamped-suc n v1 task out s)
  where
    fits : Fits (suc n) v1 len
    fits zero lt = omega arith
    fits (suc k) lt = omega (arith, f k (omega arith))
StampRun-suc n len v1 task (err _, _) h (left out f) =
    left out (λ g. f (λ k lt. omega (arith, g (suc k) (omega arith))))

stamp-StampRun :
    (n len v1 : ℕ) (task : Bytes)
    → v1 + n * 0xD0 < 2 ^ 31
    → StampRun n len v1 task (stamp n len v1 task)
unfolding stamp
stamp-StampRun zero len v1 task h =
    all task (λ k lt. absurd (omega arith))
      (record { stamps = λ k lt. absurd (omega arith); kept = λ x f. refl })
stamp-StampRun (suc n) len v1 task h =
    let a : u32 (v1 + 0x8C) ≡ v1 + 0x8C = omega arith in
    let b : u32 (v1 + 0xD0) ≡ v1 + 0xD0 = omega arith in
    elim (Bool-cases (leb (t2 + (v1 + 0x8C) + 1) len)) [
      | inr out ↦
          let over : ¬ (t2 + v1 + 0x8C < len) = ground (arith, out) in
          rw (a, out) (left task (λ f. over (omega (arith, f 0 (omega arith)))))
      | inl fits ↦
          rw (a, fits, b)
            (StampRun-suc n len v1 task (stamp n len (v1 + 0xD0) (write task (t2 + v1 + 0x8C) 1))
              (ground (arith, fits))
              (stamp-StampRun n len (v1 + 0xD0) (write task (t2 + v1 + 0x8C) 1) (omega arith)))
    ]

stamp_rounds-put : (obj : Bytes) (v : ℕ) → stamp_rounds (put_u16 obj 0x5D8 v) ≡ stamp_rounds obj
unfolding stamp_rounds put_u16
stamp_rounds-put obj v = ground arith

stamp_rounds-lt : (obj : Bytes) → stamp_rounds obj < 0x8000
unfolding stamp_rounds
stamp_rounds-lt obj = ground arith

-- what the call left, by its status
pub data Synced (W : Type 0) (len n : ℕ) (before after : Bytes)
    : Outcome DispatchStatus (Unit {0}) → Type 0 where
  every : Fits n 0x5C len → Stamped n 0x5C before after → Synced W len n before after (ok tt)
  stopped : ¬ (Fits n 0x5C len) → Synced W len n before after (err oob)

Synced-of :
    {W : Type 0} (len n : ℕ) (task : Bytes) (o : Outcome DispatchStatus (Unit {0}) × Bytes)
    → StampRun n len 0x5C task o
    → Synced W len n task o.1 o.0
Synced-of len n task (ok _, _) (all out f s) = every f s
Synced-of len n task (err _, _) (left out f) = stopped f

-- Where the task block has its least size, gt2_dispatch_sync0 returns. It succeeds exactly if all the
-- stamps of the signed limit at obj + 0x5D4 are in the task block, and then each stamp is 1 and every other
-- byte is as the four stores before the loop left it; otherwise it returns GT2_DISPATCH_ERR_OOB. Of obj
-- it changes the half word at 0x5D8 alone.
pub sync0-Synced :
    {W : Type 0} (len v n : ℕ) (s : Machine W)
    → task_min ≤ len
    → (res : Outcome DispatchStatus (Unit {0})) × (t : Machine W) × (sync0 len v n s
        ≡ some (res, t))
      × (t.obj ≡ put_u16 s.obj 0x5D8 v)
      × Synced W len (stamp_rounds s.obj) (sync_bytes (put_u16 s.obj 0x5D8 v) n s.task) t.task res
unfolding sync0
sync0-Synced {W = W} len v n s h =
    let large : ltb len task_min ≡ false = ground arith in
    let obj = put_u16 s.obj 0x5D8 v in
    let few = stamp_rounds-lt s.obj in
    let stored = sync_bytes obj n s.task in
    let out = stamp (stamp_rounds s.obj) len 0x5C stored in
    let t : Machine W = record { obj = obj; task = out.1; world = s.world } in
    (
      out.0,
      t,
      rw (large, stamp_rounds-put s.obj v) refl,
      refl,
      Synced-of len (stamp_rounds s.obj) stored out
          (stamp-StampRun (stamp_rounds s.obj) len 0x5C stored (omega arith)),
    )
