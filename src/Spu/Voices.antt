-- ===== src/Spu/Voices.antt =====
-- What the initialisation of the voices and the wait for them do.
use gt2_recomp.Prelude.{
  ℕ, zero, suc, ◌+◌, ◌≤◌, ◌<◌, ◌≡◌, ◌⊎◌, refl, sym, ap, ◌∙◌, Bool, true, false, Option, ◌==◌, arith,
  Bool-cases, inl, inr, ==→eq, if◌then◌else◌,
}
use gt2_recomp.Spu.{
  Voice, voice_count, wait_limit, Sound, init_voice, marked, init_round, init_from, init_ex,
  any_busy, wait_from, wait_idle,
}

-- the marks for the links that are still set, in the order of the voices from `i` on
unfoldable pub marks_from : {W : Type 0} → ℕ → Option (ℕ → W → W) → ℕ → (ℕ → Voice) → W → W
marks_from zero mark i voices w = w
marks_from (suc n) mark i voices w =
    marks_from n mark (i + 1) voices (marked mark (voices i).link w)

module _ {W : Type 0} (busy : ℕ → W → Bool × W) where
  -- what the first `k` voices leave when each is asked once, in order
  abbrev pub asked : ℕ → W → W
  asked zero w = w
  asked (suc k) w = (busy k (asked k w)).1

  -- the first `k` voices, asked in order, are idle
  abbrev pub Idle : ℕ → W → Type 0
  Idle k w = (j : ℕ) → j < k → (busy j (asked j w)).0 ≡ false

  -- a sweep that ends at the first busy one of the 24 voices
  abbrev pub BusySweep : W → W → Type 0
  BusySweep w after = (k : ℕ) × (k < 24) × Idle k w × (busy k (asked k w) ≡ (true, after))

-- so many sweeps in a row that each find a voice busy
pub data BusySweeps {W : Type 0} (busy : ℕ → W → Bool × W) : ℕ → W → W → Type 0 where
  no_more : {w : W} → BusySweeps busy 0 w w
  one_more :
      {n : ℕ} {w u v : W} → BusySweep busy w u → BusySweeps busy n u v → BusySweeps busy (suc n) w v

-- how a wait of at most `limit` + 1 sweeps ends: idle after a sweep over all 24 voices, or given up
pub data Waited {W : Type 0} (busy : ℕ → W → Bool × W) (limit : ℕ) (w : W) : Bool × W → Type 0 where
  idle :
      (n : ℕ) (u : W)
      → n ≤ limit
      → BusySweeps busy n w u
      → Idle busy 24 u
      → Waited busy limit w (true, asked busy 24 u)
  gave_up : (u : W) → BusySweeps busy (suc limit) w u → Waited busy limit w (false, u)

-- how a sweep over the first `k` voices ends
data Swept {W : Type 0} (busy : ℕ → W → Bool × W) (k : ℕ) (w : W) : Bool × W → Type 0 where
  quiet : Idle busy k w → Swept busy k w (false, asked busy k w)
  stopped :
      (j : ℕ) (after : W)
      → j < k
      → Idle busy j w
      → busy j (asked busy j w) ≡ (true, after)
      → Swept busy k w (true, after)

module _ {W : Type 0} (busy : ℕ → W → Bool × W) where
  Idle-suc :
      (k : ℕ) (w : W) → Idle busy k w → (busy k (asked busy k w)).0 ≡ false → Idle busy (suc k) w
  Idle-suc k w before here j lt = elim (Bool-cases (j == k)) [
    | inl same ↦ rw (==→eq j k same) here
    | inr other ↦ before j (ground (arith, other))
  ]

  any_busy-Swept :
      (n i : ℕ) (w : W) → Idle busy i w → Swept busy (i + n) w (any_busy n busy i (asked busy i w))
  unfolding any_busy
  any_busy-Swept zero i w before = let e : i + 0 ≡ i = omega arith in rw e (quiet before)
  any_busy-Swept (suc n) i w before = elim (Bool-cases (busy i (asked busy i w)).0) [
    | inl here ↦ rw here (
        stopped i (busy i (asked busy i w)).1 (omega arith) before
          (ap (λ (b : Bool). (b, (busy i (asked busy i w)).1)) here))
    | inr free ↦
        let e : i + suc n ≡ suc i + n = omega arith in
        let f : i + 1 ≡ suc i = omega arith in
        rw (free, e, f) (any_busy-Swept n (suc i) w (Idle-suc i w before free))
  ]

  sweep : (w : W) → Swept busy 24 w (any_busy voice_count busy 0 w)
  sweep w = any_busy-Swept voice_count 0 w (λ j lt. absurd (omega arith))

  Waited-more :
      (limit : ℕ) {w u : W} (res : Bool × W)
      → BusySweep busy w u
      → Waited busy limit u res
      → Waited busy (suc limit) w res
  Waited-more limit (_, _) first (idle n v le sweeps still) =
      idle (suc n) v (omega arith) (one_more first sweeps) still
  Waited-more limit (_, _) first (gave_up v sweeps) = gave_up v (one_more first sweeps)

  wait_from-zero :
      (w : W) (res : Bool × W)
      → Swept busy 24 w res
      → Waited busy 0 w (if res.0 then (false, res.1) else (true, res.1))
  wait_from-zero w (_, _) (quiet still) = idle 0 w (omega arith) no_more still
  wait_from-zero w (_, _) (stopped j after lt before here) =
      gave_up after (one_more (j, lt, before, here) no_more)

  wait_from-suc :
      (limit : ℕ) (w : W) (res again : Bool × W)
      → Swept busy 24 w res
      → Waited busy limit res.1 again
      → Waited busy (suc limit) w (if res.0 then again else (true, res.1))
  wait_from-suc limit w (_, _) again (quiet still) rest = idle 0 w (omega arith) no_more still
  wait_from-suc limit w (_, _) again (stopped j after lt before here) rest =
      Waited-more limit again (j, lt, before, here) rest

  wait_from-Waited : (limit : ℕ) (w : W) → Waited busy limit w (wait_from limit busy w)
  unfolding wait_from
  wait_from-Waited zero w = wait_from-zero w (any_busy voice_count busy 0 w) (sweep w)
  wait_from-Waited (suc limit) w =
      let res = any_busy voice_count busy 0 w in
      wait_from-suc limit w res (wait_from limit busy res.1) (sweep w)
        (wait_from-Waited limit res.1)

  -- gt2_spu_wait_idle ends. Either it says 1 and its last sweep has asked the 24 voices in order and
  -- found each idle, after at most 0x675BFF sweeps that each asked in order up to the first busy voice;
  -- or it says 0 after 0x675C00 such sweeps, each with a busy voice.
  pub wait_idle-Waited : (w : W) → Waited busy 0x675BFF w (wait_idle busy w)
  unfolding wait_idle
  wait_idle-Waited w = wait_from-Waited wait_limit w

module _ {W : Type 0} (mark : Option (ℕ → W → W)) where
  marks_from_same :
      (n i : ℕ) (a b : ℕ → Voice) (w : W)
      → ((k : ℕ) → i ≤ k → a k ≡ b k)
      → marks_from n mark i a w ≡ marks_from n mark i b w
  unfolding marks_from
  marks_from_same zero i a b w h = refl
  marks_from_same (suc n) i a b w h =
      let here : marked mark (a i).link w ≡ marked mark (b i).link w =
        ap (λ (v : Voice). marked mark v.link w) (h i (omega arith)) in
      ap (marks_from n mark (i + 1) a) here
      ∙ marks_from_same n (i + 1) a b (marked mark (b i).link w) (λ k le. h k (omega arith))

  init_from-world :
      (n i : ℕ) (s : Sound W) → (init_from n mark i s).world ≡ marks_from n mark i s.voices s.world
  unfolding init_from init_round marks_from
  init_from-world zero i s = refl
  init_from-world (suc n) i s =
      init_from-world n (i + 1) (init_round mark i s)
      ∙ marks_from_same n (i + 1) (init_round mark i s).voices s.voices
          (marked mark (s.voices i).link s.world) (λ k le. ground arith)

  init_from_outside :
      (n i : ℕ) (s : Sound W) (k : ℕ)
      → (k < i) ⊎ (i + n ≤ k)
      → (init_from n mark i s).voices k ≡ s.voices k
  unfolding init_from init_round
  init_from_outside zero i s k h = refl
  init_from_outside (suc n) i s k h =
      init_from_outside n (i + 1) (init_round mark i s) k (beyond h) ∙ ground arith
    where
      beyond : (k < i) ⊎ (i + suc n ≤ k) → (k < i + 1) ⊎ (i + 1 + n ≤ k)
      beyond (inl l) = inl (omega arith)
      beyond (inr g) = inr (omega arith)

  init_from_inside :
      (n i : ℕ) (s : Sound W) (k : ℕ)
      → i ≤ k
      → k < i + n
      → (init_from n mark i s).voices k ≡ init_voice (s.voices k)
  unfolding init_from init_round
  init_from_inside zero i s k l h = absurd (omega arith)
  init_from_inside (suc n) i s k l h = elim (Bool-cases (k == i)) [
    | inl here ↦
        init_from_outside n (i + 1) (init_round mark i s) k (inl (ground (arith, here)))
        ∙ rw here (ap (λ j. init_voice (s.voices j)) (sym (==→eq k i here)))
    | inr on ↦
        init_from_inside n (i + 1) (init_round mark i s) k (ground (arith, on)) (omega arith)
        ∙ rw on refl
  ]

-- What gt2_spu_init_ex leaves: the 24 voices reset, the others as they were, and the stale links of
-- the voices marked in their order.
pub record Reset {W : Type 0} (mark : Option (ℕ → W → W)) (s t : Sound W) : Type 0 where
  pub inside : (k : ℕ) → k < voice_count → t.voices k ≡ init_voice (s.voices k)
  pub outside : (k : ℕ) → voice_count ≤ k → t.voices k ≡ s.voices k
  pub world : t.world ≡ marks_from voice_count mark 0 s.voices s.world

pub init_ex-Reset :
    {W : Type 0} (mark : Option (ℕ → W → W)) (s : Sound W) → Reset mark s (init_ex mark s)
unfolding init_ex
init_ex-Reset mark s = record {
  inside = λ k h. init_from_inside mark voice_count 0 s k (omega arith) (omega arith);
  outside = λ k h. init_from_outside mark voice_count 0 s k (inr (omega arith));
  world = init_from-world mark voice_count 0 s;
}
