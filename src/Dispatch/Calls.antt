-- ===== src/Dispatch/Calls.antt =====
-- What a call of decomp/src/dispatch/dispatch.c works on: the two blocks that it is given and the
-- caller's context, and calls in sequence that may return a status early.
use gt2_recomp.Prelude.{ℕ, Option, none, some, Outcome, ok, err}
use gt2_recomp.Bytes.{Bytes}

-- gt2_dispatch_status_t without its OK
pub data DispatchStatus : Type 0 where
  inval unknown_arm oob : DispatchStatus

-- obj, task and what `ctx` leads to
pub record Machine (W : Type 0) : Type 0 where
  pub obj : Bytes
  pub task : Bytes
  pub world : W

-- gt2_dispatch_cb_t. A callback is given the offset of its block in obj and may change what it reaches.
pub record Callbacks (W : Type 0) : Type 0 where
  pub poll : ℕ → Machine W → ℕ × Machine W
  pub worker : ℕ → ℕ → Machine W → Machine W

-- a call: `none` if it has not ended, its status or its result and the blocks as it leaves them
abbrev pub Call : Type 0 → Type 0 → Type 0
Call W A = Machine W → Option (Outcome DispatchStatus A × Machine W)

infixl 5 ◌>>=◌
abbrev pub ◌>>=◌ : {W A B : Type 0} → Call W A → (A → Call W B) → Call W B
(c >>= k) s = elim (c s) [
  | none ↦ none
  | some (err e, t) ↦ some (err e, t)
  | some (ok a, t) ↦ k a t
]

infixl 5 ◌>>◌
abbrev pub ◌>>◌ : {W B : Type 0} → Call W (Unit {0}) → Call W B → Call W B
c >> k = c >>= λ done. k

abbrev pub done : {W A : Type 0} → A → Call W A
done a s = some (ok a, s)

abbrev pub refuse : {W A : Type 0} → DispatchStatus → Call W A
refuse e s = some (err e, s)

abbrev pub obj_byte : {W : Type 0} → ℕ → Call W ℕ
obj_byte o s = some (ok (s.obj o), s)
