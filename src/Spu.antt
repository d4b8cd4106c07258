-- ===== src/Spu.antt =====
-- The sound unit's voices: decomp/src/spu/spu.c.
pub mod Voices
use gt2_recomp.Prelude.{
  ℕ, zero, suc, ◌+◌, ◌-◌, Bool, true, false, Option, none, some, ◌==◌, if◌then◌else◌,
}

-- gt2_spu_voice_t; `rest` has the bytes r01, data and tail
pub record Voice : Type 0 where
  pub owner : ℕ
  pub f04 : ℕ
  pub mode : ℕ
  pub f06 : ℕ
  pub f07 : ℕ
  pub f08 : ℕ
  pub link : ℕ
  pub rest : ℕ → ℕ

abbrev pub voice_count : ℕ
voice_count = 24

abbrev pub wait_limit : ℕ
wait_limit = 0x675BFF

-- the voices and what `ctx` leads to
pub record Sound (W : Type 0) : Type 0 where
  pub voices : ℕ → Voice
  pub world : W

-- a voice after its round, its bytes `rest` kept
unfoldable pub init_voice : Voice → Voice
init_voice v = record v { owner = 0; f04 = 0; mode = 2; f06 = 0; f07 = 1; f08 = 0; link = 0 }

abbrev pub marked : {W : Type 0} → Option (ℕ → W → W) → ℕ → W → W
marked none link w = w
marked (some mark) link w = if link == 0 then w else mark link w

-- one round of gt2_spu_init_ex
unfoldable pub init_round : {W : Type 0} → Option (ℕ → W → W) → ℕ → Sound W → Sound W
unfolding init_voice
init_round mark i s = record {
  voices = λ k. if k == i then init_voice (s.voices i) else s.voices k;
  world = marked mark (s.voices i).link s.world;
}

-- the rounds from voice `i` on, `n` to go
unfoldable pub init_from : {W : Type 0} → ℕ → Option (ℕ → W → W) → ℕ → Sound W → Sound W
init_from zero mark i s = s
init_from (suc n) mark i s = init_from n mark (i + 1) (init_round mark i s)

-- gt2_spu_init_ex
unfoldable pub init_ex : {W : Type 0} → Option (ℕ → W → W) → Sound W → Sound W
init_ex mark s = init_from voice_count mark 0 s

-- one sweep of gt2_spu_wait_idle from voice `i` on, up to the first busy one
unfoldable pub any_busy : {W : Type 0} → ℕ → (ℕ → W → Bool × W) → ℕ → W → Bool × W
any_busy zero busy i w = (false, w)
any_busy (suc n) busy i w =
    let (is_busy, after) = busy i w in
    let rest = any_busy n busy (i + 1) after in if is_busy then (true, after) else rest

-- the sweeps of gt2_spu_wait_idle, `left` the rounds up to the limit
unfoldable pub wait_from : {W : Type 0} → ℕ → (ℕ → W → Bool × W) → W → Bool × W
wait_from zero busy w =
    let (any, after) = any_busy voice_count busy 0 w in
    if any then (false, after) else (true, after)
wait_from (suc left) busy w =
    let (any, after) = any_busy voice_count busy 0 w in
    let again = wait_from left busy after in if any then again else (true, after)

-- gt2_spu_wait_idle
unfoldable pub wait_idle : {W : Type 0} → (ℕ → W → Bool × W) → W → Bool × W
wait_idle busy w = wait_from wait_limit busy w
