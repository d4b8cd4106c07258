-- ===== src/Bytes/Rounds.antt =====
-- Loops that write a byte buffer: which round a byte comes from.
use gt2_recomp.Prelude.{ℕ, zero, suc, ◌<◌, ◌≡◌, refl, ◌∙◌, arith, ltb, Bool-cases, inl, inr, tests}
use gt2_recomp.Bytes.{Bytes, times}

-- a byte that no round writes keeps its value
pub times-kept :
    (n : ℕ) (f : ℕ → Bytes → Bytes) (m : Bytes) (k : ℕ)
    → ((i : ℕ) (b : Bytes) → i < n → f i b k ≡ b k)
    → times n f m k ≡ m k
unfolding times
times-kept zero f m k h = refl
times-kept (suc n) f m k h =
    h n (times n f m) (omega arith) ∙ times-kept n f m k (λ i b lt. h i b (omega arith))

-- a byte that one round alone writes, always with the same value, has that value
pub times-written :
    (n j v : ℕ) (f : ℕ → Bytes → Bytes) (m : Bytes) (k : ℕ)
    → j < n
    → ((b : Bytes) → f j b k ≡ v)
    → ((i : ℕ) (b : Bytes) → j < i → i < n → f i b k ≡ b k)
    → times n f m k ≡ v
unfolding times
times-written zero j v f m k lt w h = elim lt [ ]
times-written (suc n) j v f m k lt w h = elim (Bool-cases (ltb j n)) [
  | inl below ↦
      h n (times n f m) (omega tests) (omega arith)
      ∙ times-written n j v f m k (omega tests) w (λ i b p q. h i b p (omega arith))
  | inr here ↦ let e : n ≡ j = omega tests in h' e
]
  where
    h' : n ≡ j → f n (times n f m) k ≡ v
    h' e = rw e (w _)

-- a byte that no round after `j` writes is as round `j` left it
pub times-last :
    (n j : ℕ) (f : ℕ → Bytes → Bytes) (m : Bytes) (k : ℕ)
    → j < n
    → ((i : ℕ) (b : Bytes) → j < i → i < n → f i b k ≡ b k)
    → times n f m k ≡ f j (times j f m) k
unfolding times
times-last zero j f m k lt h = elim lt [ ]
times-last (suc n) j f m k lt h = elim (Bool-cases (ltb j n)) [
  | inl below ↦
      h n (times n f m) (omega tests) (omega arith)
      ∙ times-last n j f m k (omega tests) (λ i b p q. h i b p (omega arith))
  | inr here ↦ let e : j ≡ n = omega tests in rw e refl
]
