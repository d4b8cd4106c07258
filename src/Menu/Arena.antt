-- ===== src/Menu/Arena.antt =====
-- Where a menu tick writes: in the packets that its own calls of the emitters take from the arena.
use gt2_recomp.Prelude.{
  ℕ, ◌+◌, ◌≤◌, ◌<◌, ◌≡◌, ◌⊎◌, refl, ◌∙◌, Bool, true, false, none, some, ◌==◌, arith, inl, inr,
  if◌then◌else◌,
}
use gt2_recomp.Bytes.{sext16, neg16}
use gt2_recomp.Bytes.Laws.{put_u32_ne}
use gt2_recomp.Menu.{
  MenuRec, MenuList, Cell, Screen, Emitters, Emits, ◌>>=◌, ◌>>◌, done, short, fill_word, fill_pkt,
  filled, short_path,
}
use gt2_recomp.Menu.Tick.{first_pair, gated, second_stanza, stanza, full_path, emit_tick}

-- An arena that is filled upward: where its free bytes start and end, when its caller's context is in
-- order, the bytes elsewhere that link the packets, and the most that an emit_s takes.
pub record Arena (W : Type 0) : Type 1 where
  pub top : W → ℕ
  pub limit : ℕ
  pub IsSound : W → Type 0
  pub IsLink : ℕ → Type 0
  pub short_size : ℕ

-- From `s` to `t` at most `n` bytes were taken, and no others written but links.
pub record Taken {W : Type 0} (r : Arena W) (n : ℕ) (s t : Screen W) : Type 0 where
  pub sound : r.IsSound t.world
  pub low : r.top s.world ≤ r.top t.world
  pub high : r.top t.world ≤ r.top s.world + n
  pub same :
      (k : ℕ) → (k < r.top s.world) ⊎ (r.top t.world ≤ k) → ¬ (r.IsLink k) → t.memory k ≡ s.memory k

-- calls that take at most `n` bytes where the arena has so many
pub record Takes {W A : Type 0} (r : Arena W) (n : ℕ) (m : Emits W A) : Type 0 where
  pub taken : (s : Screen W) → r.IsSound s.world → r.top s.world + n ≤ r.limit → Taken r n s (m s).1

-- Emitters over the arena: emit_a takes 20 bytes and gives 12 of them, emit_b takes 8.
pub record Allots {W : Type 0} (r : Arena W) (e : Emitters W) : Type 0 where
  pub a_taken :
      (flags : ℕ) (s : Screen W)
      → r.IsSound s.world
      → r.top s.world + 20 ≤ r.limit
      → Taken r 20 s (e.emit_a flags s).1
  pub a_packet :
      (flags : ℕ) (s : Screen W)
      → r.IsSound s.world
      → r.top s.world + 20 ≤ r.limit
      → (r.top s.world ≤ (e.emit_a flags s).0)
        × ((e.emit_a flags s).0 + 12 ≤ r.top (e.emit_a flags s).1.world)
  pub b_taken :
      (flags : ℕ) (s : Screen W)
      → r.IsSound s.world
      → r.top s.world + 8 ≤ r.limit
      → Taken r 8 s (e.emit_b flags s).1
  pub s_taken :
      (cell : Cell) (s : Screen W)
      → r.IsSound s.world
      → r.top s.world + r.short_size ≤ r.limit
      → Taken r r.short_size s (e.emit_s cell s)

module _ {W : Type 0} (r : Arena W) where
  Taken-trans : (a b : ℕ) {s t u : Screen W} → Taken r a s t → Taken r b t u → Taken r (a + b) s u
  Taken-trans a b f g = record {
    sound = g.sound;
    low = omega (arith, f.low, g.low);
    high = omega (arith, f.high, g.high);
    same = λ k out off. g.same k (later k f.low out) off ∙ f.same k (earlier k g.low out) off;
  }
    where
      later : {x y z : ℕ} (k : ℕ) → x ≤ y → (k < x) ⊎ (z ≤ k) → (k < y) ⊎ (z ≤ k)
      later k le (inl p) = inl (omega arith)
      later k le (inr q) = inr q

      earlier : {x y z : ℕ} (k : ℕ) → y ≤ z → (k < x) ⊎ (z ≤ k) → (k < x) ⊎ (y ≤ k)
      earlier k le (inl p) = inl p
      earlier k le (inr q) = inr (omega arith)

  >>=-Takes :
      {A B : Type 0} (a b : ℕ) (m : Emits W A) (k : A → Emits W B)
      → Takes r a m
      → ((x : A) → Takes r b (k x))
      → Takes r (a + b) (m >>= k)
  unfolding ◌>>=◌
  >>=-Takes a b m k f g = record {
    taken = λ s ok room.
        let first = f.taken s ok (omega arith) in
        Taken-trans a b first
          ((g (m s).0).taken (m s).1 first.sound (omega (arith, first.high, room)));
  }

  >>-Takes :
      {A B : Type 0} (a b : ℕ) (m : Emits W A) (k : Emits W B)
      → Takes r a m
      → Takes r b k
      → Takes r (a + b) (m >> k)
  unfolding ◌>>◌
  >>-Takes a b m k f g = >>=-Takes a b m (λ done. k) f (λ u. g)

  if-Takes :
      {A : Type 0} (n : ℕ) (b : Bool) (x y : Emits W A)
      → Takes r n x
      → Takes r n y
      → Takes r n (if b then x else y)
  if-Takes n true x y f g = f
  if-Takes n false x y f g = g

  done-Takes : {A : Type 0} (n : ℕ) (a : A) → Takes r n (done a)
  unfolding done
  done-Takes n a = record {
    taken = λ s ok room. record {
      sound = ok;
      low = omega arith;
      high = omega arith;
      same = λ k out off. refl;
    };
  }

  more-Takes : {A : Type 0} (a n : ℕ) (m : Emits W A) → a ≤ n → Takes r a m → Takes r n m
  more-Takes a n m le f = record {
    taken = λ s ok room.
        let first = f.taken s ok (omega arith) in
        record {
          sound = first.sound;
          low = first.low;
          high = omega (arith, first.high);
          same = first.same;
        };
  }

module _ {W : Type 0} (r : Arena W) (e : Emitters W) (allots : Allots r e) where
  emit_b-Takes : (flags : ℕ) → Takes r 8 (e.emit_b flags)
  emit_b-Takes flags = record { taken = allots.b_taken flags }

  short-Takes : (cell : Cell) → Takes r r.short_size (short e cell)
  unfolding short
  short-Takes cell = record { taken = allots.s_taken cell }

  -- a byte outside what was taken is outside each word of a packet in it
  outside_word :
      (d : ℕ) {lo hi : ℕ} (p k : ℕ)
      → d + 4 ≤ 12
      → lo ≤ p
      → p + 12 ≤ hi
      → (k < lo) ⊎ (hi ≤ k)
      → (k < p + d) ⊎ (p + d + 4 ≤ k)
  outside_word d p k fits l h (inl below) = inl (omega arith)
  outside_word d p k fits l h (inr above) = inr (omega arith)

  filled-Takes : (list : MenuList) (flags base s6 : ℕ) → Takes r 20 (filled e list flags base s6)
  unfolding filled fill_pkt ◌>>=◌ ◌>>◌ done
  filled-Takes list flags base s6 = record {
    taken = λ s ok room.
        let t = allots.a_taken flags s ok room in
        let (l, h) = allots.a_packet flags s ok room in
        let p = (e.emit_a flags s).0 in
        record {
          sound = t.sound;
          low = t.low;
          high = t.high;
          same = λ k out off.
              let zeroth : p + 0 ≡ p = omega arith in
              put_u32_ne _ (p + 8) list.w4 k (outside_word 8 p k (omega arith) l h out)
              ∙ put_u32_ne _ (p + 4) list.w0 k (outside_word 4 p k (omega arith) l h out)
              ∙ put_u32_ne (e.emit_a flags s).1.memory p (fill_word base s6 list) k
                  (rw zeroth at (outside_word 0 p k (omega arith) l h out))
              ∙ t.same k out off;
        };
  }

  module _ (rec : MenuRec) (list : MenuList) where
    -- the two cells and the call that follows them
    short_path-Takes : Takes r (r.short_size + (r.short_size + 8)) (short_path rec list e)
    unfolding short_path
    short_path-Takes =
        let s = r.short_size in
        >>-Takes r s (s + 8) _ _ (short-Takes _) (
          >>-Takes r s 8 _ _ (short-Takes _)
            (>>=-Takes r 8 0 _ _ (emit_b-Takes _) (λ p. done-Takes r 0 (some p))))

    first_pair-Takes : Takes r 48 (first_pair rec list e)
    unfolding first_pair
    first_pair-Takes =
        if-Takes r 48 _ _ _
          (>>-Takes r 20 28 _ _ (filled-Takes list _ _ _) (
            >>-Takes r 20 8 _ _ (filled-Takes list _ _ _)
              (>>-Takes r 8 0 _ _ (emit_b-Takes _) (done-Takes r 0 tt))))
          (done-Takes r 48 tt)

    gated-Takes : (gate : ℕ) → Takes r 28 (gated rec list e gate)
    unfolding gated
    gated-Takes gate = if-Takes r 28 _ _ _ (done-Takes r 28 _) (
        >>-Takes r 20 8 _ _ (filled-Takes list _ _ _)
          (>>-Takes r 8 0 _ _ (emit_b-Takes _) (done-Takes r 0 _)))

    second_stanza-Takes : (gate : ℕ) → Takes r 56 (second_stanza rec list e gate)
    unfolding second_stanza
    second_stanza-Takes gate =
        if-Takes r 56 _ _ _
          (>>=-Takes r 28 28 _ _ (gated-Takes gate) (λ level.
            >>-Takes r 20 8 _ _ (filled-Takes list _ _ _)
              (>>-Takes r 8 0 _ _ (emit_b-Takes _) (done-Takes r 0 tt))))
          (done-Takes r 56 tt)

    stanza-Takes : (gate : ℕ) → Takes r 84 (stanza rec list e gate)
    unfolding stanza
    stanza-Takes gate =
        if-Takes r 84 _ _ _
          (>>-Takes r 20 64 _ _ (filled-Takes list _ _ _)
            (>>-Takes r 8 56 _ _ (emit_b-Takes _) (second_stanza-Takes gate)))
          (>>-Takes r 20 64 _ _ (filled-Takes list _ _ _) (done-Takes r 64 tt))

    full_path-Takes : (gate : ℕ) → Takes r 140 (full_path rec list e gate)
    unfolding full_path
    full_path-Takes gate = >>-Takes r 48 92 _ _ first_pair-Takes (
        >>-Takes r 84 8 _ _ (stanza-Takes gate)
          (>>=-Takes r 8 0 _ _ (emit_b-Takes _) (λ p. done-Takes r 0 (some p))))

    -- Over emitters that take their packets from the free end of an arena, and where the arena has room for
    -- five of emit_a, five of emit_b and two of emit_s, a whole tick, on every path, takes no more than
    -- that, and writes nothing but the bytes that its own calls have taken and the links: packets that lay in
    -- the arena before stay as they were.
    pub emit_tick-Takes :
        (gate : ℕ) → Takes r (140 + (r.short_size + r.short_size)) (emit_tick rec gate list e)
    unfolding emit_tick
    emit_tick-Takes gate =
        let n = 140 + (r.short_size + r.short_size) in
        if-Takes r n (sext16 rec.cnt == list.addr) _ _ (done-Takes r n none) (
          if-Takes r n (neg16 rec.cnt) _ _
            (if-Takes r n (rec.cnt == 0xFFFF) _ _ (done-Takes r n none)
              (more-Takes r (r.short_size + (r.short_size + 8)) n _ (omega arith) short_path-Takes))
            (more-Takes r 140 n _ (omega arith) (full_path-Takes gate)))
