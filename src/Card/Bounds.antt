-- ===== src/Card/Bounds.antt =====
-- A tick of the card driver writes inside its state block and the data window only.
use gt2_recomp.Prelude.{
  ℕ, zero, suc, ◌+◌, ◌*◌, ◌≤◌, ◌<◌, ◌≡◌, ◌⊎◌, refl, true, not, Option, none, some, ltb, bit_or,
  arith, inl, inr, Bool-cases,
}
use gt2_recomp.Bytes.{neg32, slt32, Bytes, le32, u32, sub32}
use gt2_recomp.Card.Ticks.{oob, Card, Callbacks, call, ask}
use gt2_recomp.Card.{
  bump, shift_up, off_window, back_lane, make_room, stamp_key, key_stamped, key_typed, key_lane,
  quit_arm, step_left, step_right, col_left, col_right, move_lane, lanes, by_event, climb, run,
}
use gt2_recomp.Card.Safe.{
  Kept, state_min, IsSafe, >>=-IsSafe, >>-IsSafe, if-IsSafe, guard-IsSafe, put_data-IsSafe,
  rd8-IsSafe, data_byte-IsSafe, done-IsSafe, guarded-IsSafe, safe_steps,
}

down : (i len : ℕ) → i + 1 < len → (off_window (sub32 i 1) len ≡ true) ⊎ (sub32 i 1 + 1 < len)
down zero len h = inl (ground arith)
down (suc i) len h = inr (omega arith)

last_inside :
    (r len : ℕ)
    → not (off_window (u32 (r + 1)) len) ≡ true
    → (off_window r len ≡ true) ⊎ (r + 1 < len)
last_inside r len h = elim (Bool-cases (neg32 r)) [
  | inl neg ↦ inl (rw neg refl)
  | inr pos ↦ inr (ground (arith, h, pos))
]

module _ {W : Type 0} {len : ℕ} where
  bump-IsSafe : (o lim reset : ℕ) → o + 2 ≤ state_min → IsSafe {W = W} len (bump o lim reset)
  unfolding bump
  bump-IsSafe o lim reset h = search (safe_steps, h)

  -- What follows a guard may use it.
  shift_up-IsSafe :
      (n i : ℕ) → (off_window i len ≡ true) ⊎ (i + 1 < len) → IsSafe {W = W} len (shift_up n len i)
  unfolding shift_up
  shift_up-IsSafe zero i h = done-IsSafe tt
  shift_up-IsSafe (suc n) i h = guarded-IsSafe (not (off_window i len)) oob _ (λ inside.
      (let fits : i + 1 < len = ground arith in
        let next : (off_window (sub32 i 1) len ≡ true) ⊎ (sub32 i 1 + 1 < len) = down i len fits in
        let rest = shift_up-IsSafe n (sub32 i 1) next in
        >>=-IsSafe _ _ (data_byte-IsSafe i)
          (λ b. >>-IsSafe _ _ (put_data-IsSafe (i + 1) b fits) rest)))

  make_room-IsSafe : (r cnt : ℕ) → IsSafe {W = W} len (make_room len r cnt)
  unfolding make_room
  make_room-IsSafe r cnt = if-IsSafe (slt32 r cnt) _ _ (done-IsSafe tt) (
      guarded-IsSafe (not (off_window (u32 (r + 1)) len)) oob _
        (λ inside. shift_up-IsSafe (sub32 r cnt + 1) r (last_inside r len inside)))

  stamp_key-IsSafe :
      (aux : Bytes) (aux_len cnt : ℕ) → IsSafe {W = W} len (stamp_key len aux aux_len cnt)
  unfolding stamp_key
  stamp_key-IsSafe aux aux_len cnt = >>=-IsSafe _ _ (rd8-IsSafe 0x1A) (λ row.
      >>=-IsSafe _ _ (rd8-IsSafe 0x1B) (λ col.
        >>-IsSafe _ _ (guard-IsSafe (ltb (row * 16 + col) aux_len) oob) (
          guarded-IsSafe (not (off_window cnt len)) oob _
            (λ inside. put_data-IsSafe cnt (aux (row * 16 + col)) (ground arith)))))

-- What a client may rely on: the callbacks keep to their blocks.
pub record KeepBlocks {W : Type 0} (len : ℕ) (cb : Callbacks W) : Type 0 where
  pub cfc4 : (o : ℕ) (s : Card W) → Kept len s (cb.cfc4 o s)
  pub be64 : (o : ℕ) (s : Card W) → Kept len s (cb.be64 o s)
  pub da80 : (o : ℕ) (s : Card W) → Kept len s (cb.da80 o s)
  pub c8fc4 : (s : Card W) → Kept len s (cb.c8fc4 s).1
  pub ad3c : (n : ℕ) (s : Card W) → Kept len s (cb.ad3c n s).1
  pub d400 : (o : ℕ) (s : Card W) → Kept len s (cb.d400 o s)
  pub op3524 : (v : ℕ) (s : Card W) → Kept len s (cb.op3524 v s)
  pub op0840 : (v : ℕ) (s : Card W) → Kept len s (cb.op0840 v s)

module _ {W : Type 0} {len : ℕ} (cb : Callbacks W) (keep : KeepBlocks len cb) where
  call-IsSafe : (f : Card W → Card W) → ((s : Card W) → Kept len s (f s)) → IsSafe len (call f)
  unfolding call
  call-IsSafe f h = record { kept = h }

  ask-IsSafe : (f : Card W → ℕ × Card W) → ((s : Card W) → Kept len s (f s).1) → IsSafe len (ask f)
  unfolding ask
  ask-IsSafe f h = record { kept = h }

  cfc4-IsSafe : (o : ℕ) → IsSafe len (call (cb.cfc4 o))
  cfc4-IsSafe o = call-IsSafe (cb.cfc4 o) (keep.cfc4 o)

  be64-IsSafe : (o : ℕ) → IsSafe len (call (cb.be64 o))
  be64-IsSafe o = call-IsSafe (cb.be64 o) (keep.be64 o)

  da80-IsSafe : (o : ℕ) → IsSafe len (call (cb.da80 o))
  da80-IsSafe o = call-IsSafe (cb.da80 o) (keep.da80 o)

  c8fc4-IsSafe : IsSafe len (ask cb.c8fc4)
  c8fc4-IsSafe = ask-IsSafe cb.c8fc4 keep.c8fc4

  ad3c-IsSafe : (n : ℕ) → IsSafe len (ask (cb.ad3c n))
  ad3c-IsSafe n = ask-IsSafe (cb.ad3c n) (keep.ad3c n)

  d400-IsSafe : (o : ℕ) → IsSafe len (call (cb.d400 o))
  d400-IsSafe o = call-IsSafe (cb.d400 o) (keep.d400 o)

  op3524-IsSafe : (v : ℕ) → IsSafe len (call (cb.op3524 v))
  op3524-IsSafe v = call-IsSafe (cb.op3524 v) (keep.op3524 v)

  op0840-IsSafe : (v : ℕ) → IsSafe len (call (cb.op0840 v))
  op0840-IsSafe v = call-IsSafe (cb.op0840 v) (keep.op0840 v)

  ruleset safe_calls = (
    cfc4-IsSafe, be64-IsSafe, da80-IsSafe, c8fc4-IsSafe, ad3c-IsSafe, d400-IsSafe, op3524-IsSafe,
    op0840-IsSafe,
  )

  back_lane-IsSafe : IsSafe len (back_lane cb)
  unfolding back_lane
  back_lane-IsSafe = search (safe_steps, safe_calls, arith)

  key_stamped-IsSafe : (q : ℕ) → IsSafe len (key_stamped cb q)
  unfolding key_stamped
  key_stamped-IsSafe q = search (safe_steps, safe_calls, arith)

  key_typed-IsSafe : (aux : Bytes) (aux_len : ℕ) → IsSafe len (key_typed cb len aux aux_len)
  unfolding key_typed
  key_typed-IsSafe aux aux_len =
      search (safe_steps, safe_calls, make_room-IsSafe, stamp_key-IsSafe, key_stamped-IsSafe, arith)
        depth 9

  key_lane-IsSafe : (aux : Bytes) (aux_len : ℕ) → IsSafe len (key_lane cb len aux aux_len)
  unfolding key_lane
  key_lane-IsSafe aux aux_len = search (safe_steps, key_typed-IsSafe, arith)

  quit_arm-IsSafe : IsSafe len (quit_arm cb)
  unfolding quit_arm
  quit_arm-IsSafe = search (safe_steps, safe_calls, arith)

  step_left-IsSafe : (s1 : ℕ) → IsSafe {W = W} len (step_left s1)
  unfolding step_left
  step_left-IsSafe s1 = search (safe_steps, arith)

  step_right-IsSafe : (s1 : ℕ) → IsSafe len (step_right cb s1)
  unfolding step_right
  step_right-IsSafe s1 = search (safe_steps, safe_calls, arith)

  col_left-IsSafe : (s1 : ℕ) → IsSafe {W = W} len (col_left s1)
  unfolding col_left
  col_left-IsSafe s1 = search (safe_steps, arith)

  col_right-IsSafe : (s1 : ℕ) → IsSafe {W = W} len (col_right s1)
  unfolding col_right
  col_right-IsSafe s1 = search (safe_steps, arith)

  move_lane-IsSafe : (s1 : ℕ) → IsSafe len (move_lane cb s1)
  unfolding move_lane
  move_lane-IsSafe s1 = search (
    safe_steps, safe_calls, step_left-IsSafe, step_right-IsSafe, col_left-IsSafe, col_right-IsSafe,
    arith,
  )

  lanes-IsSafe : (aux : Bytes) (aux_len s1 : ℕ) → IsSafe len (lanes cb len aux aux_len s1)
  unfolding lanes
  lanes-IsSafe aux aux_len s1 =
      search (safe_steps, back_lane-IsSafe, key_lane-IsSafe, quit_arm-IsSafe, move_lane-IsSafe)

  climb-IsSafe : (c : ℕ) → IsSafe {W = W} len (climb c)
  unfolding climb
  climb-IsSafe c = search (safe_steps, arith)

  by_event-IsSafe :
      (aux : Bytes) (aux_len : ℕ) (ev : Option Bytes) → IsSafe len (by_event cb len aux aux_len ev)
  by_event-IsSafe aux aux_len none = done-IsSafe 2
  by_event-IsSafe aux aux_len (some ev) =
      lanes-IsSafe aux aux_len (bit_or (le32 ev 4) (le32 ev 0xC))

  -- Where the callbacks keep to the state block and the data window, so does the whole tick, whether it
  -- ends with a result or refuses an address: no byte past either is written.
  pub run-IsSafe :
      (ev : Option Bytes) (aux : Bytes) (aux_len : ℕ) → IsSafe len (run cb ev len aux aux_len)
  unfolding run
  run-IsSafe ev aux aux_len =
      search (safe_steps, safe_calls, bump-IsSafe, by_event-IsSafe, climb-IsSafe, arith)
