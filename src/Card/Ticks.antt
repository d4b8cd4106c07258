-- ===== src/Card/Ticks.antt =====
-- What a tick of decomp/src/card/card.c works on: the state block, the data window and the caller's
-- context, and steps in sequence that may refuse.
use gt2_recomp.Prelude.{ℕ, Bool, true, false, Outcome, ok, err}
use gt2_recomp.Bytes.{Bytes, write, le16, le32, put_u16}

-- gt2_card_status_t without its OK
pub data CardStatus : Type 0 where
  inval oob : CardStatus

-- state, data and what `ctx` leads to
pub record Card (W : Type 0) : Type 0 where
  pub state : Bytes
  pub window : Bytes
  pub world : W

-- gt2_card_cb_t. A callback is given the offset of its block in the state, and may change what it
-- reaches. Numbers are 32-bit words.
pub record Callbacks (W : Type 0) : Type 0 where
  pub cfc4 : ℕ → Card W → Card W
  pub be64 : ℕ → Card W → Card W
  pub da80 : ℕ → Card W → Card W
  pub c8fc4 : Card W → ℕ × Card W
  pub ad3c : ℕ → Card W → ℕ × Card W
  pub d400 : ℕ → Card W → Card W
  pub op3524 : ℕ → Card W → Card W
  pub op0840 : ℕ → Card W → Card W

-- a step: its status or its result, and what it leaves
abbrev pub Step : Type 0 → Type 0 → Type 0
Step W A = Card W → Outcome CardStatus A × Card W

abbrev pub after :
    {W A B : Type 0}
    → Outcome CardStatus A × Card W
    → (A → Step W B)
    → Outcome CardStatus B × Card W
after (err e, t) k = (err e, t)
after (ok a, t) k = k a t

infixl 5 ◌>>=◌
unfoldable pub ◌>>=◌ : {W A B : Type 0} → Step W A → (A → Step W B) → Step W B
(m >>= k) s = after (m s) k

infixl 5 ◌>>◌
unfoldable pub ◌>>◌ : {W B : Type 0} → Step W (Unit {0}) → Step W B → Step W B
m >> k = m >>= λ done. k

unfoldable pub done : {W A : Type 0} → A → Step W A
done a s = (ok a, s)

unfoldable pub guard : {W : Type 0} → Bool → CardStatus → Step W (Unit {0})
guard true e s = (ok tt, s)
guard false e s = (err e, s)

unfoldable pub call : {W : Type 0} → (Card W → Card W) → Step W (Unit {0})
call f s = (ok tt, f s)

unfoldable pub ask : {W : Type 0} → (Card W → ℕ × Card W) → Step W ℕ
ask f s = (ok (f s).0, (f s).1)

unfoldable pub rd8 : {W : Type 0} → ℕ → Step W ℕ
rd8 o s = (ok (s.state o), s)

-- the half word, its sign in bit 15
unfoldable pub rd16u : {W : Type 0} → ℕ → Step W ℕ
rd16u o s = (ok (le16 s.state o), s)

unfoldable pub rd32 : {W : Type 0} → ℕ → Step W ℕ
rd32 o s = (ok (le32 s.state o), s)

unfoldable pub wr8 : {W : Type 0} → ℕ → ℕ → Step W (Unit {0})
wr8 o v s = (ok tt, record s { state = write s.state o v })

unfoldable pub wr16 : {W : Type 0} → ℕ → ℕ → Step W (Unit {0})
wr16 o v s = (ok tt, record s { state = put_u16 s.state o v })

unfoldable pub data_byte : {W : Type 0} → ℕ → Step W ℕ
data_byte o s = (ok (s.window o), s)

unfoldable pub put_data : {W : Type 0} → ℕ → ℕ → Step W (Unit {0})
put_data o v s = (ok tt, record s { window = write s.window o v })
