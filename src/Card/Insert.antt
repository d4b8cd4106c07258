-- ===== src/Card/Insert.antt =====
-- Typing a key on the card driver's 0xA00 lane inserts a byte of the constant table into the window.
use gt2_recomp.Prelude.{
  ℕ, zero, suc, ◌+◌, ◌-◌, ◌*◌, ◌^◌, ◌≤◌, ◌<◌, ◌≡◌, refl, ap, ◌∙◌, true, false, ◌&&◌, ok, ltb, leb,
  ◌==◌, if◌then◌else◌, arith, inl, inr, lt→ltb, Bool-cases,
}
use gt2_recomp.Bytes.{slt32, Bytes, write, u32, sub32}
use gt2_recomp.Card.Ticks.{Card, ◌>>=◌, ◌>>◌, done, guard, data_byte, put_data, rd8}
use gt2_recomp.Card.{off_window, shift_up, make_room, stamp_key}

-- The bytes of `w` after `lo` stand one place further up to `hi`, and the rest is as it was.
abbrev pub moved_up : Bytes → ℕ → ℕ → Bytes
moved_up w lo hi k = if ltb lo k && leb k hi then w (k - 1) else w k

-- `t` is `s` with another window.
pub record Windowed {W : Type 0} (s t : Card W) (w : Bytes) : Type 0 where
  pub window : (k : ℕ) → t.window k ≡ w k
  pub state : t.state ≡ s.state
  pub world : t.world ≡ s.world

moved_step :
    (w : Bytes) (lo i k : ℕ)
    → lo ≤ i
    → moved_up (write w (i + 1) (w i)) lo i k ≡ moved_up w lo (i + 1) k
moved_step w lo i k h = ground arith

module _ {W : Type 0} (len : ℕ) where
  shift_round :
      (n i : ℕ) (s : Card W)
      → off_window i len ≡ false
      → shift_up (suc n) len i s
        ≡ shift_up n len (sub32 i 1) (record s { window = write s.window (i + 1) (s.window i) })
  unfolding shift_up guard data_byte put_data ◌>>=◌ ◌>>◌
  shift_round n i s h = rw h refl

  shift_none : (i : ℕ) (s : Card W) → shift_up zero len i s ≡ (ok tt, s)
  unfolding shift_up done
  shift_none i s = refl

  shift_up-moved :
      (n lo : ℕ) (s : Card W)
      → lo + n < len
      → lo + n < 2 ^ 31
      → (t : Card W) × (shift_up n len (sub32 (lo + n) 1) s ≡ (ok tt, t))
        × Windowed s t (moved_up s.window lo (lo + n))
  shift_up-moved zero lo s fits small =
      (s, shift_none _ s, record { window = λ k. ground arith; state = refl; world = refl })
  shift_up-moved (suc n) lo s fits small =
      let here : sub32 (lo + suc n) 1 ≡ lo + n = omega arith in
      let inside : off_window (lo + n) len ≡ false = ground arith in
      let s' : Card W = record s { window = write s.window (lo + n + 1) (s.window (lo + n)) } in
      let (t, e, f) = shift_up-moved n lo s' (omega arith) (omega arith) in
      let top : lo + n + 1 ≡ lo + suc n = omega arith in
      (
        t,
        ap (λ j. shift_up (suc n) len j s) here ∙ shift_round n (lo + n) s inside ∙ e,
        record {
          window = λ k.
              f.window k
              ∙ moved_step s.window lo (lo + n) k (omega arith)
              ∙ ap (λ hi. moved_up s.window lo hi k) top;
          state = f.state;
          world = f.world;
        },
      )

  room_made_already :
      (r cnt : ℕ) (s : Card W) → slt32 r cnt ≡ true → make_room len r cnt s ≡ (ok tt, s)
  unfolding make_room done
  room_made_already r cnt s h = rw h refl

  room_to_make :
      (r cnt : ℕ) (s : Card W)
      → slt32 r cnt ≡ false
      → off_window (u32 (r + 1)) len ≡ false
      → make_room len r cnt s ≡ shift_up (sub32 r cnt + 1) len r s
  unfolding make_room guard ◌>>=◌ ◌>>◌
  room_to_make r cnt s h g = rw (h, g) refl

  make_room-moved :
      (r cnt : ℕ) (s : Card W)
      → cnt ≤ r + 1
      → r + 1 < len
      → r + 1 < 2 ^ 31
      → (t : Card W) × (make_room len r cnt s ≡ (ok tt, t))
        × Windowed s t (moved_up s.window cnt (r + 1))
  make_room-moved r cnt s le fits small = elim (Bool-cases (slt32 r cnt)) [
    | inl past ↦ (
      s,
      room_made_already r cnt s past,
      record {
        window = λ k. (let e : cnt ≡ r + 1 = ground (arith, past) in ground (arith, e));
        state = refl;
        world = refl;
      },
    )
    | inr reached ↦
        let before : cnt ≤ r = ground (arith, reached) in
        let n : ℕ = r + 1 - cnt in
        let rounds : sub32 r cnt + 1 ≡ n = omega arith in
        let top : cnt + n ≡ r + 1 = omega arith in
        let last : r ≡ sub32 (cnt + n) 1 = omega arith in
        let (t, e, f) = shift_up-moved n cnt s (omega arith) (omega arith) in
        (
          t,
          room_to_make r cnt s reached (ground arith)
              ∙ ap (λ m. shift_up m len r s) rounds
              ∙ ap (λ i. shift_up n len i s) last
              ∙ e,
          record {
            window = λ k. f.window k ∙ ap (λ hi. moved_up s.window cnt hi k) top;
            state = f.state;
            world = f.world;
          },
        )
  ]

  stamp_key-stamped :
      (aux : Bytes) (aux_len cnt : ℕ) (s : Card W)
      → s.state 0x1A * 16 + s.state 0x1B < aux_len
      → cnt < len
      → cnt < 2 ^ 31
      → stamp_key len aux aux_len cnt s
        ≡ (ok tt, record s { window = write s.window cnt (aux (s.state 0x1A * 16 + s.state 0x1B)) })
  unfolding stamp_key rd8 guard put_data ◌>>=◌ ◌>>◌
  stamp_key-stamped aux aux_len cnt s key fits small =
      let inside : off_window cnt len ≡ false = ground arith in
      rw (lt→ltb (s.state 0x1A * 16 + s.state 0x1B) aux_len key, inside) refl

-- The window after a byte is inserted before the byte at `cnt`, the bytes up to `r` moving up.
abbrev pub inserted : Bytes → ℕ → ℕ → ℕ → Bytes
inserted w cnt r key k = if k == cnt then key else moved_up w cnt (r + 1) k

-- Where the end `r` of the text is not before the insertion point, the bytes moved up still lie in
-- the window and the key of the state in the table, making room and stamping succeeds: the table's
-- byte stands at the insertion point, the bytes from there to the end have moved up by one, in order,
-- and nothing else of the window, the state or the context has changed.
pub stamp_key-make_room :
    {W : Type 0} (len r cnt : ℕ) (aux : Bytes) (aux_len : ℕ) (s : Card W)
    → cnt ≤ r + 1
    → r + 1 < len
    → r + 1 < 2 ^ 31
    → s.state 0x1A * 16 + s.state 0x1B < aux_len
    → (t : Card W) × ((make_room len r cnt >> stamp_key len aux aux_len cnt) s ≡ (ok tt, t))
      × Windowed s t (inserted s.window cnt r (aux (s.state 0x1A * 16 + s.state 0x1B)))
unfolding ◌>>◌ ◌>>=◌
stamp_key-make_room {W} len r cnt aux aux_len s le fits small key =
    let (t, e, f) = make_room-moved len r cnt s le fits small in
    let same : t.state 0x1A * 16 + t.state 0x1B ≡ s.state 0x1A * 16 + s.state 0x1B =
      ap (λ (m : Bytes). m 0x1A * 16 + m 0x1B) f.state in
    (
      record t { window = write t.window cnt (aux (t.state 0x1A * 16 + t.state 0x1B)) },
      rw e (stamp_key-stamped len aux aux_len cnt t (omega arith) (omega arith) (omega arith)),
      record {
        window = λ k. (let m = f.window k in ground (arith, m, same));
        state = f.state;
        world = f.world;
      },
    )
