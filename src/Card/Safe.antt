-- ===== src/Card/Safe.antt =====
-- Steps of the card driver that write inside the state block and the data window only, and how such
-- steps compose.
use gt2_recomp.Prelude.{
  ℕ, ◌+◌, ◌≤◌, ◌<◌, ◌≡◌, refl, ◌∙◌, Bool, true, false, Outcome, ok, err, if◌then◌else◌, arith, inr,
}
use gt2_recomp.Bytes.{le16, le32}
use gt2_recomp.Bytes.Laws.{put_u16_ne}
use gt2_recomp.Card.Ticks.{
  CardStatus, Card, Step, after, ◌>>=◌, ◌>>◌, done, guard, rd8, rd16u, rd32, wr8, wr16, data_byte,
  put_data,
}

abbrev pub state_min : ℕ
state_min = 0x50

-- From `a` to `b` no byte past the state block or past the data window changed.
pub record Kept {W : Type 0} (len : ℕ) (a b : Card W) : Type 0 where
  pub state : (k : ℕ) → state_min ≤ k → b.state k ≡ a.state k
  pub window : (k : ℕ) → len ≤ k → b.window k ≡ a.window k

pub record IsSafe {W A : Type 0} (len : ℕ) (m : Step W A) : Type 0 where
  pub kept : (s : Card W) → Kept len s (m s).1

module _ {W : Type 0} {len : ℕ} where
  pub Kept-same : (s : Card W) → Kept len s s
  Kept-same s = record { state = λ k h. refl; window = λ k h. refl }

  Kept-trans : {a b c : Card W} → Kept len a b → Kept len b c → Kept len a c
  Kept-trans f g = record {
    state = λ k h. g.state k h ∙ f.state k h;
    window = λ k h. g.window k h ∙ f.window k h;
  }

  bind-Kept :
      {A B : Type 0} (s : Card W) (r : Outcome CardStatus A × Card W) (k : A → Step W B)
      → Kept len s r.1
      → ((a : A) → IsSafe len (k a))
      → Kept len s (after r k).1
  bind-Kept s (err e, t) k f g = f
  bind-Kept s (ok a, t) k f g = Kept-trans f ((g a).kept t)

  pub >>=-IsSafe :
      {A B : Type 0} (m : Step W A) (k : A → Step W B)
      → IsSafe len m
      → ((a : A) → IsSafe len (k a))
      → IsSafe len (m >>= k)
  unfolding ◌>>=◌
  >>=-IsSafe m k f g = record { kept = λ s. bind-Kept s (m s) k (f.kept s) g }

  pub >>-IsSafe :
      {B : Type 0} (m : Step W (Unit {0})) (k : Step W B)
      → IsSafe len m
      → IsSafe len k
      → IsSafe len (m >> k)
  unfolding ◌>>◌
  >>-IsSafe m k f g = >>=-IsSafe m (λ done. k) f (λ u. g)

  pub if-IsSafe :
      {A : Type 0} (b : Bool) (x y : Step W A)
      → IsSafe len x
      → IsSafe len y
      → IsSafe len (if b then x else y)
  if-IsSafe true x y f g = f
  if-IsSafe false x y f g = g

  pub reads : {A : Type 0} (f : Card W → A) → IsSafe len (λ s. (ok (f s), s))
  reads f = record { kept = Kept-same }

  pub guard-IsSafe : (b : Bool) (e : CardStatus) → IsSafe {W = W} len (guard b e)
  unfolding guard
  guard-IsSafe true e = record { kept = Kept-same }
  guard-IsSafe false e = record { kept = Kept-same }

  pub wr16-IsSafe : (o v : ℕ) → o + 2 ≤ state_min → IsSafe {W = W} len (wr16 o v)
  unfolding wr16
  wr16-IsSafe o v h = record {
    kept = λ s. record {
      state = λ k p. put_u16_ne s.state o v k (inr (omega arith));
      window = λ k p. refl;
    };
  }

  pub wr8-IsSafe : (o v : ℕ) → o < state_min → IsSafe {W = W} len (wr8 o v)
  unfolding wr8
  wr8-IsSafe o v h = record {
    kept = λ s. record { state = λ k p. ground arith; window = λ k p. refl };
  }

  pub put_data-IsSafe : (o v : ℕ) → o < len → IsSafe {W = W} len (put_data o v)
  unfolding put_data
  put_data-IsSafe o v h = record {
    kept = λ s. record { state = λ k p. refl; window = λ k p. ground arith };
  }

  pub rd8-IsSafe : (o : ℕ) → IsSafe {W = W} len (rd8 o)
  unfolding rd8
  rd8-IsSafe o = reads (λ s. s.state o)

  pub rd16u-IsSafe : (o : ℕ) → IsSafe {W = W} len (rd16u o)
  unfolding rd16u
  rd16u-IsSafe o = reads (λ s. le16 s.state o)

  pub rd32-IsSafe : (o : ℕ) → IsSafe {W = W} len (rd32 o)
  unfolding rd32
  rd32-IsSafe o = reads (λ s. le32 s.state o)

  pub data_byte-IsSafe : (o : ℕ) → IsSafe {W = W} len (data_byte o)
  unfolding data_byte
  data_byte-IsSafe o = reads (λ s. s.window o)

  pub done-IsSafe : {A : Type 0} (a : A) → IsSafe {W = W} len (done a)
  unfolding done
  done-IsSafe a = reads (λ s. a)

  pub ruleset safe_steps = (
    done-IsSafe, rd8-IsSafe, rd16u-IsSafe, rd32-IsSafe, data_byte-IsSafe, >>=-IsSafe, >>-IsSafe,
    if-IsSafe, guard-IsSafe, wr16-IsSafe, wr8-IsSafe,
  )

  pub guarded-IsSafe :
      {A : Type 0} (b : Bool) (e : CardStatus) (m : Step W A)
      → (b ≡ true → IsSafe len m)
      → IsSafe len (guard b e >> m)
  unfolding ◌>>◌ ◌>>=◌ guard
  guarded-IsSafe true e m h = record { kept = (h refl).kept }
  guarded-IsSafe false e m h = record { kept = Kept-same }
