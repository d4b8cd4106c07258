-- ===== src/Mcd/Store/Used.antt =====
-- used_blocks on a card whose chains end and stay in frames that are in use.
use gt2_recomp.Prelude.{
  ℕ, zero, suc, ◌+◌, ◌-◌, ◌<◌, ◌≤◌, ◌≡◌, ◌≢◌, ◌⊎◌, refl, sym, ◌∙◌, Bool, true, false, ◌||◌, some,
  arith, ltb, ◌==◌, inl, inr, Bool-cases, map,
}
use gt2_recomp.Bytes.{Bytes}
use gt2_recomp.Mcd.{entry_at}
use gt2_recomp.Mcd.Chains.{link, dir_of_block}
use gt2_recomp.Mcd.Store.{
  entry_in_use, mark, mark_chain, mark_entries, used_blocks, pick_blocks, pick_frames,
}

-- the links from block `blk` on reach the end mark in less than `n` steps
pub data Ended (img : Bytes) : ℕ → ℕ → Type 0 where
  stop : {n blk : ℕ} → link img blk ≡ 0xFFFF → Ended img (suc n) blk
  step :
      {n blk : ℕ} → link img blk ≢ 0xFFFF → Ended img n (link img blk + 1) → Ended img (suc n) blk

-- a card whose chains stay in frames that are in use, and end
pub record IsSound (fuel : ℕ) (img : Bytes) : Type 0 where
  pub links :
      (i : ℕ)
      → i < 15
      → entry_in_use img i ≡ true
      → (link img (i + 1) ≡ 0xFFFF)
        ⊎ ((link img (i + 1) < 15) × (entry_in_use img (link img (i + 1)) ≡ true))
  pub ends : (i : ℕ) → i < 15 → entry_in_use img i ≡ true → Ended img fuel (i + 1)

-- a data block whose frame is in use
record InUse (img : Bytes) (b : ℕ) : Type 0 where
  from : 1 ≤ b
  to : b ≤ 15
  used : entry_in_use img (b - 1) ≡ true

-- the marks after some rounds: no fewer, and no others than of blocks in use
record Marks (img : Bytes) (before after : ℕ → Bool) : Type 0 where
  more : (x : ℕ) → before x ≡ true → after x ≡ true
  only : (x : ℕ) → after x ≡ true → (before x ≡ true) ⊎ InUse img x

Marks-trans : (img : Bytes) (a b c : ℕ → Bool) → Marks img a b → Marks img b c → Marks img a c
Marks-trans img a b c p q = record {
  more = λ x h. q.more x (p.more x h);
  only = λ x h. elim (q.only x h) [ inl was ↦ p.only x was | inr is ↦ inr is ];
}

Marks-mark : (img : Bytes) (b : ℕ) (used : ℕ → Bool) → InUse img b → Marks img used (mark b used)
Marks-mark img b used h = record {
  more = λ x u. ground (arith, u);
  only = λ x u. elim (Bool-cases (x == b)) [
    | inl same ↦ let e : x ≡ b = ground (arith, same) in inr (rw e h)
    | inr other ↦ inl (ground (arith, u, other))
  ];
}

InUse-next :
    (img : Bytes) (fuel b : ℕ)
    → IsSound fuel img
    → InUse img b
    → link img b ≢ 0xFFFF
    → InUse img (link img b + 1)
InUse-next img fuel b s h goes =
    let lo = h.from in
    let hi = h.to in
    let e : b - 1 + 1 ≡ b = omega arith in
    elim (rw e at (s.links (b - 1) (omega arith) h.used)) [
      | inl last ↦ absurd (goes last)
      | inr (lt, used) ↦
          let z : link img b + 1 - 1 ≡ link img b = omega arith in
          record { from = omega arith; to = omega arith; used = rw z used }
    ]

mark_chain-Marks :
    (n fuel : ℕ) (img : Bytes) (b : ℕ) (used : ℕ → Bool)
    → IsSound fuel img
    → InUse img b
    → Ended img n b
    → (out : ℕ → Bool) × (mark_chain n img b used ≡ some out) × Marks img used out × (out b ≡ true)
unfolding mark_chain entry_at
mark_chain-Marks zero fuel img b used s h e = elim e [ ]
mark_chain-Marks (suc n) fuel img b used s h (stop last) =
    let lo = h.from in
    let hi = h.to in
    let inside : (ltb b 1 || ltb 15 b) ≡ false = ground arith in
    (
      mark b used,
      rw (inside, dir_of_block img b lo hi, last) refl,
      Marks-mark img b used h,
      ground arith,
    )
mark_chain-Marks (suc n) fuel img b used s h (step goes e) =
    let lo = h.from in
    let hi = h.to in
    let inside : (ltb b 1 || ltb 15 b) ≡ false = ground arith in
    let on : (link img b == 0xFFFF) ≡ false = ground arith in
    let (out, r, m, there) =
      mark_chain-Marks n fuel img (link img b + 1) (mark b used) s (InUse-next img fuel b s h goes)
        e in
    (
      out,
      rw (inside, dir_of_block img b lo hi, on) r,
      Marks-trans img used (mark b used) out (Marks-mark img b used h) m,
      m.more b (ground arith),
    )

mark_entries-Marks :
    (n fuel : ℕ) (img : Bytes) (i : ℕ) (used : ℕ → Bool)
    → IsSound fuel img
    → i + n ≤ 15
    → (out : ℕ → Bool) × (mark_entries fuel n img i used ≡ some out)
      × Marks img used out
      × ((j : ℕ) → i ≤ j → j < i + n → entry_in_use img j ≡ true → out (j + 1) ≡ true)
unfolding mark_entries
mark_entries-Marks zero fuel img i used s h =
    (used, refl, record { more = λ x u. u; only = λ x u. inl u }, λ j lo hi u. absurd (omega arith))
mark_entries-Marks (suc n) fuel img i used s h = elim (Bool-cases (entry_in_use img i)) [
  | inr free ↦
      let (out, r, m, all) = mark_entries-Marks n fuel img (i + 1) used s (omega arith) in
      (
        out,
        rw free r,
        m,
        λ j lo hi u. elim (Bool-cases (j == i)) [
          | inl same ↦
              let e : j ≡ i = ground (arith, same) in absurd (ground (arith, free, rw e at u))
          | inr other ↦ all j (ground (arith, other)) (omega arith) u
        ],
      )
  | inl busy ↦
      let z : i + 1 - 1 ≡ i = omega arith in
      let here : InUse img (i + 1) = record {
        from = omega arith;
        to = omega arith;
        used = rw z busy;
      } in
      let (mid, e, p, marked) =
        mark_chain-Marks fuel fuel img (i + 1) used s here (s.ends i (omega arith) busy) in
      let (out, r, m, all) = mark_entries-Marks n fuel img (i + 1) mid s (omega arith) in
      (
        out,
        rw (busy, e) r,
        Marks-trans img used mid out p m,
        λ j lo hi u. elim (Bool-cases (j == i)) [
          | inl same ↦ let eq : j ≡ i = ground (arith, same) in rw eq (m.more (i + 1) marked)
          | inr other ↦ all j (ground (arith, other)) (omega arith) u
        ],
      )
]

-- On a sound card used_blocks ends, and a data block is used exactly if its own frame is in use.
pub used_blocks_iff :
    (fuel : ℕ) (img : Bytes)
    → IsSound fuel img
    → (used : ℕ → Bool) × (used_blocks fuel img ≡ some used)
      × ((i : ℕ) → i < 15 → used (i + 1) ≡ entry_in_use img i)
unfolding used_blocks
used_blocks_iff fuel img s =
    let (used, r, m, all) = mark_entries-Marks 15 fuel img 0 (λ b. b == 0) s (omega arith) in
    (
      used,
      r,
      λ i lt. elim (Bool-cases (entry_in_use img i)) [
        | inl busy ↦ all i (omega arith) (omega arith) busy ∙ sym busy
        | inr free ↦ elim (Bool-cases (used (i + 1))) [
          | inr not_used ↦ not_used ∙ sym free
          | inl marked ↦ elim (m.only (i + 1) marked) [
            | inl first ↦ absurd (ground (arith, first))
            | inr busy ↦
                let z : i + 1 - 1 ≡ i = omega arith in
                let there = rw z at busy.used in absurd (ground (arith, there, free))
          ]
        ]
      ],
    )

-- then the blocks that are picked are those of the frames that are picked
pub pick_blocks-map :
    (n i need : ℕ) (img : Bytes) (used : ℕ → Bool)
    → ((j : ℕ) → i ≤ j → j < i + n → used (j + 1) ≡ entry_in_use img j)
    → pick_blocks n used (i + 1) need ≡ map suc (pick_frames n img i need)
unfolding pick_blocks pick_frames
pick_blocks-map zero i need img used h = refl
pick_blocks-map (suc n) i zero img used h = refl
pick_blocks-map (suc n) i (suc need) img used h =
    let later : (m : ℕ) → pick_blocks n used (i + 1 + 1) m ≡ map suc (pick_frames n img (i + 1) m) =
      λ m. pick_blocks-map n (i + 1) m img used (λ j lo hi. h j (omega arith) (omega arith)) in
    let here = h i (omega arith) (omega arith) in
    elim (Bool-cases (entry_in_use img i)) [
      | inl busy ↦ rw (here, busy) (later (suc need))
      | inr free ↦ let e : i + 1 ≡ suc i = omega arith in rw (here, free, later need, e) refl
    ]
