-- ===== src/Tests/SpuTests.antt =====
-- Voices with a stale link, and a wait for a voice that is busy twice.
use gt2_recomp.Prelude.{ℕ, ◌+◌, ◌≡◌, refl, Bool, true, false, some, List, [], ◌∷◌, ◌==◌, ◌&&◌, ltb}
use gt2_recomp.Spu.{
  Voice, Sound, init_ex, init_from, init_round, init_voice, any_busy, wait_from, wait_idle,
}
use gt2_recomp.Spu.Voices.{Waited, wait_idle-Waited}

abbrev stale : Voice
stale = record { owner = 3; f04 = 1; mode = 0; f06 = 1; f07 = 0; f08 = 9; link = 77; rest = λ k. 5 }

abbrev sound : Sound (List ℕ)
sound = record { voices = λ k. stale; world = [] }

voice_reset : (init_ex (some (λ a w. a ∷ w)) sound).voices 23 ≡ init_voice stale
unfolding init_ex init_from init_round
voice_reset = refl

-- the world counts the questions; voice 1 is busy for the first four
abbrev polled : ℕ → ℕ → Bool × ℕ
polled i w = (i == 1 && ltb w 4, w + 1)

idle_third : (wait_from 2 polled 0).0 ≡ true
unfolding wait_from any_busy
idle_third = refl

gives_up : (wait_from 1 polled 0).0 ≡ false
unfolding wait_from any_busy
gives_up = refl

wait_idle-Waited_example : Waited polled 0x675BFF 0 (wait_idle polled 0)
wait_idle-Waited_example = wait_idle-Waited polled 0
