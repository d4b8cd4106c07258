-- ===== src/Mcd/Store/New.antt =====
-- The entries of a card after the storing loop: those that were in use, and the new ones.
use native.Mathlib.Nat.{zero-add, suc-add}
use gt2_recomp.Prelude.{
  ℕ, zero, suc, ◌+◌, ◌*◌, ◌-◌, ◌<◌, ◌≤◌, ◌≡◌, ◌≢◌, ◌⊎◌, refl, sym, ap, ◌∙◌, Bool, true, false, List,
  [], ◌∷◌, arith, ◌==◌, Bool-cases, inl, inr, length, map,
}
use gt2_recomp.Bytes.{Bytes, le32}
use gt2_recomp.Bytes.Laws.{le16_same, le32_same}
use gt2_recomp.Mcd.{frame_at, in_use}
use gt2_recomp.Mcd.Chains.{link}
use gt2_recomp.Mcd.Store.{entry_in_use, chain_state, chain_next}
use gt2_recomp.Mcd.Store.Frame.{FrameSays}
use gt2_recomp.Mcd.Store.Used.{IsSound, Ended, stop, step}
use gt2_recomp.Mcd.Store.Stored.{
  Free, free, Within, Apart, all, not_in, Apart-used, Apart-frame, Apart-block, Stored, stored,
}
use gt2_recomp.Mcd.Store.RoundTrip.{entry_in_use-state}

-- the card after a write against the card before it: the frames `fs` are new, the others as they were
module _ (img out : Bytes)
    (keeps : (g x : ℕ) → g < 15 → entry_in_use img g ≡ true → Within x g → out x ≡ img x) where
  link-kept : (g : ℕ) → g < 15 → entry_in_use img g ≡ true → link out (g + 1) ≡ link img (g + 1)
  link-kept g h used =
      le16_same out img ((g + 1) * 128 + 8)
        (λ c lt. keeps g ((g + 1) * 128 + 8 + c) h used (inl (omega arith, omega arith)))

  used-kept : (g : ℕ) → g < 15 → entry_in_use img g ≡ true → entry_in_use out g ≡ true
  used-kept g h used =
      let f = frame_at 0 (1 + g) in
      let same : le32 out f ≡ le32 img f =
        le32_same out img f (λ c lt. keeps g (f + c) h used (inl (omega arith, omega arith))) in
      entry_in_use-state out g h ∙ ap in_use same ∙ sym (entry_in_use-state img g h) ∙ used

  Ended-kept :
      (n fuel b : ℕ)
      → IsSound fuel img
      → 1 ≤ b
      → b ≤ 15
      → entry_in_use img (b - 1) ≡ true
      → Ended img n b
      → Ended out n b
  Ended-kept zero fuel b s lo hi used e = elim e [ ]
  Ended-kept (suc n) fuel b s lo hi used (stop last) =
      let z : b - 1 + 1 ≡ b = omega arith in
      stop (rw z at (link-kept (b - 1) (omega arith) used) ∙ last)
  Ended-kept (suc n) fuel b s lo hi used (step goes e) =
      let z : b - 1 + 1 ≡ b = omega arith in
      let same : link out b ≡ link img b = rw z at (link-kept (b - 1) (omega arith) used) in
      elim (rw z at (s.links (b - 1) (omega arith) used)) [
        | inl last ↦ absurd (goes last)
        | inr (lt, there) ↦
            let y : link img b + 1 - 1 ≡ link img b = omega arith in
            let rest =
              Ended-kept n fuel (link img b + 1) s (omega arith) (omega arith) (rw y there) e in
            step (λ last. goes (sym same ∙ last)) (rw same rest)
      ]

in_use-chain_state : (first : Bool) (ps : List ℕ) → in_use (chain_state first ps) ≡ true
unfolding in_use chain_state
in_use-chain_state true ps = refl
in_use-chain_state false [] = refl
in_use-chain_state false (p ∷ ps) = refl

-- what the frame of a new entry says
record NewEntry (out : Bytes) (n i : ℕ) : Type 0 where
  used : entry_in_use out i ≡ true
  links :
      (link out (i + 1) ≡ 0xFFFF)
      ⊎ ((link out (i + 1) < 15) × (entry_in_use out (link out (i + 1)) ≡ true))
  ends : Ended out n (i + 1)

-- every new frame is an entry in use, with a chain that ends
data AllNew (out : Bytes) (n : ℕ) : List ℕ → Type 0 where
  no_more : AllNew out n []
  new : {fs : List ℕ} (f : ℕ) → NewEntry out n f → AllNew out n fs → AllNew out n (f ∷ fs)

Ended-more : (out : Bytes) (n b : ℕ) → Ended out n b → Ended out (suc n) b
Ended-more out zero b e = elim e [ ]
Ended-more out (suc n) b (stop last) = stop last
Ended-more out (suc n) b (step goes e) = step goes (Ended-more out n (link out b + 1) e)

Ended-plus : (out : Bytes) (k n b : ℕ) → Ended out n b → Ended out (k + n) b
Ended-plus out zero n b e = rw zero-add e
Ended-plus out (suc k) n b e = rw suc-add (Ended-more out (k + n) b (Ended-plus out k n b e))

module _ (img out data_ptr : Bytes) (size n : ℕ) where
  frame-used :
      (k f : ℕ) (fs : List ℕ)
      → f < 15
      → FrameSays out
          ((1 + f) * 128)
          (chain_state (k == 0) (map suc fs))
          size
          (chain_next (map suc fs))
      → entry_in_use out f ≡ true
  frame-used k f fs h says =
      let e : (1 + f) * 128 ≡ frame_at 0 (1 + f) = omega arith in
      let state = rw e at says.state_at in
      entry_in_use-state out f h ∙ ap in_use state ∙ in_use-chain_state (k == 0) (map suc fs)

  frame-link :
      (k f : ℕ) (fs : List ℕ)
      → FrameSays out
          ((1 + f) * 128)
          (chain_state (k == 0) (map suc fs))
          size
          (chain_next (map suc fs))
      → link out (f + 1) ≡ chain_next (map suc fs)
  frame-link k f fs says =
      let e : (1 + f) * 128 + 8 ≡ (f + 1) * 128 + 8 = omega arith in rw e at says.next_at

  -- the chain from a new frame on ends with the new frames
  Stored-Ended :
      (k lo f : ℕ) (fs : List ℕ)
      → Free img lo (f ∷ fs)
      → Stored out data_ptr size k (f ∷ fs)
      → Ended out (suc (length fs)) (f + 1)
  unfolding chain_next
  Stored-Ended k lo f [] h (stored _ _ says block later) = stop (frame-link k f [] says)
  Stored-Ended k lo f (g ∷ gs) (free _ up few idle (free _ up' few' idle' r))
        (stored _ _ says block later) =
      let to : link out (f + 1) ≡ g = frame-link k f (g ∷ gs) says ∙ omega arith in
      step (λ last. absurd (omega arith))
        (rw to (Stored-Ended (k + 1) (suc f) g gs (free g up' few' idle' r) later))

  Stored-links :
      (k lo f : ℕ) (fs : List ℕ)
      → Free img lo (f ∷ fs)
      → Stored out data_ptr size k (f ∷ fs)
      → (link out (f + 1) ≡ 0xFFFF)
        ⊎ ((link out (f + 1) < 15) × (entry_in_use out (link out (f + 1)) ≡ true))
  unfolding chain_next
  Stored-links k lo f [] h (stored _ _ says block later) = inl (frame-link k f [] says)
  Stored-links k lo f (g ∷ gs) (free _ up few idle (free _ up' few' idle' r))
        (stored _ _ says block (stored _ _ next b l)) =
      let to : link out (f + 1) ≡ g = frame-link k f (g ∷ gs) says ∙ omega arith in
      inr (rw to few', rw to (frame-used (k + 1) g gs few' next))

  Stored-AllNew :
      (k lo : ℕ) (fs : List ℕ)
      → Free img lo fs
      → Stored out data_ptr size k fs
      → length fs ≤ n
      → AllNew out n fs
  Stored-AllNew k lo [] h s short = no_more
  Stored-AllNew k lo (f ∷ fs) (free _ up few idle r) (stored _ _ says block later) short =
      let whole : Free img lo (f ∷ fs) = free f up few idle r in
      let part : Stored out data_ptr size k (f ∷ fs) = stored f fs says block later in
      let pad : n - suc (length fs) + suc (length fs) ≡ n = omega arith in
      new f
        (record {
          used = frame-used k f fs few says;
          links = Stored-links k lo f fs whole part;
          ends = rw pad at (
              Ended-plus out (n - suc (length fs)) (suc (length fs)) (f + 1)
                (Stored-Ended k lo f fs whole part));
        })
        (Stored-AllNew (k + 1) (suc f) fs r later (omega arith))

-- an entry is new, or its frame and its block are apart from the new ones
new_or_Apart :
    (img out : Bytes) (n lo i : ℕ) (fs : List ℕ)
    → i < 15
    → Free img lo fs
    → AllNew out n fs
    → NewEntry out n i ⊎ ((x : ℕ) → Within x i → Apart x fs)
new_or_Apart img out n lo i [] h idle a = inr (λ x w. all)
new_or_Apart img out n lo i (f ∷ fs) h (free _ up few idle r) (new _ e a) =
    elim (Bool-cases (i == f)) [
      | inl same ↦ let eq : i ≡ f = ground (arith, same) in inl (rw eq e)
      | inr other ↦
          let ne : i ≢ f = ground (arith, other) in
          elim (new_or_Apart img out n (suc f) i fs h r a) [
            | inl is_new ↦ inl is_new
            | inr apart ↦ inr (λ x w.
                not_in (Apart-frame x i f ne h few w) (Apart-block x i f ne h few w) (apart x w))
          ]
    ]

-- A card stays sound when data is stored in free frames and their blocks.
pub store-IsSound :
    (fuel : ℕ) (img out data_ptr : Bytes) (size : ℕ) (fs : List ℕ)
    → IsSound fuel img
    → Free img 0 fs
    → Stored out data_ptr size 0 fs
    → ((x : ℕ) → Apart x fs → out x ≡ img x)
    → length fs ≤ fuel
    → IsSound fuel out
store-IsSound fuel img out data_ptr size fs s idle stored_all kept short = record {
  links = λ i h used. elim (source i h used) [
    | inl is_new ↦ is_new.links
    | inr old ↦ old_links i h old
  ];
  ends = λ i h used. elim (source i h used) [
    | inl is_new ↦ is_new.ends
    | inr old ↦
        let z : i + 1 - 1 ≡ i = omega arith in
        Ended-kept img out keeps fuel fuel (i + 1) s (omega arith) (omega arith) (rw z old)
          (s.ends i h old)
  ];
}
  where
    keeps : (g x : ℕ) → g < 15 → entry_in_use img g ≡ true → Within x g → out x ≡ img x
    keeps g x h used w = kept x (Apart-used img 0 x g fs idle used h w)

    source :
        (i : ℕ)
        → i < 15
        → entry_in_use out i ≡ true
        → NewEntry out fuel i ⊎ (entry_in_use img i ≡ true)
    source i h used =
        elim (new_or_Apart img out fuel 0 i fs h idle
          (Stored-AllNew img out data_ptr size fuel 0 0 fs idle stored_all short)) [
            | inl is_new ↦ inl is_new
            | inr apart ↦
                let f = frame_at 0 (1 + i) in
                let same : le32 out f ≡ le32 img f =
                  le32_same out img f
                    (λ c lt. kept (f + c) (apart (f + c) (inl (omega arith, omega arith)))) in
                inr (
                  entry_in_use-state img i h
                  ∙ ap in_use (sym same)
                  ∙ sym (entry_in_use-state out i h)
                  ∙ used)
          ]

    old_links :
        (i : ℕ)
        → i < 15
        → entry_in_use img i ≡ true
        → (link out (i + 1) ≡ 0xFFFF)
          ⊎ ((link out (i + 1) < 15) × (entry_in_use out (link out (i + 1)) ≡ true))
    old_links i h old =
        let same = link-kept img out keeps i h old in
        elim (s.links i h old) [
          | inl last ↦ inl (same ∙ last)
          | inr (lt, used) ↦
              inr (rw same lt, rw same (used-kept img out keeps (link img (i + 1)) lt used))
        ]
