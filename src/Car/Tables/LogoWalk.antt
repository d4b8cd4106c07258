-- ===== src/Car/Tables/LogoWalk.antt =====
-- The walk of gt2_car_logo_annotate over the pairs of the directory.
use gt2_recomp.Prelude.{
  ℕ, suc, ◌+◌, ◌^◌, ◌<◌, ◌≤◌, ◌≡◌, refl, sym, ap, ◌∙◌, true, false, Option, none, some, List, [],
  ◌∷◌, Outcome, ok, err, arith, ◌==◌, Bool-cases, inl, inr, ==→eq,
}
use gt2_recomp.Bytes.{Bytes, u16}
use gt2_recomp.Vol.Walk.{Entry, has_end}
use gt2_recomp.Car.{CarEntry, CarStatus, truncated, namehash}
use gt2_recomp.Car.Search.{Answers, hit, miss, find-Answers}
use gt2_recomp.Car.Tables.{set_z, logo_skipped, logo_hit, logo_round, logo_walk}
use gt2_recomp.Car.Tables.NamedLogos.{
  SameKeys, SameKeys-refl, SameKeys-trans, SameKeys-set_z, Rising, Rising-SameKeys, Rising-Sorted,
  one_of_hash, Names, Pairs, last, more, all, LogoOf, unnamed, named, Hits, no_logo, for_car,
  for_none, skipped-Names, shown-Names,
}

-- what one logo leaves of the table and of the number of hits
data RoundEnds (weights : Bytes) (count : ℕ) (e : Entry) (tab : ℕ → CarEntry) (hits : ℕ)
    : (ℕ → CarEntry) × ℕ → Type 0 where
  missed :
      ((j : ℕ) → j < count → ¬ (Names weights e (tab j).hash))
      → RoundEnds weights count e tab hits (tab, hits)
  set :
      (k : ℕ)
      → k < count
      → Names weights e (tab k).hash
      → RoundEnds weights count e tab hits (set_z tab k (u16 e.next), hits + 1)

-- what the walk leaves from some file on
pub data WalkEnds (weights : Bytes) (count : ℕ) (files : List Entry) (tab : ℕ → CarEntry) (hits : ℕ)
    : Outcome CarStatus ℕ × (ℕ → CarEntry) → Type 0 where
  short :
      (out : ℕ → CarEntry)
      → SameKeys out tab
      → WalkEnds weights count files tab hits (err truncated, out)
  walked :
      (logos : List Entry) (n total : ℕ) (out : ℕ → CarEntry)
      → total ≡ hits + n
      → Pairs files logos
      → Hits weights tab count logos n
      → SameKeys out tab
      → ((j : ℕ) → j < count → LogoOf weights (tab j).hash (tab j).z logos (out j).z)
      → ((j : ℕ) → count ≤ j → (out j).z ≡ (tab j).z)
      → WalkEnds weights count files tab hits (ok total, out)

module _ (weights : Bytes) (count : ℕ) (small : count ≤ 2 ^ 31) where
  hit-RoundEnds :
      (e : Entry) (tab : ℕ → CarEntry) (hits : ℕ) (o : Option ℕ)
      → logo_skipped e.name ≡ false
      → Answers tab count (namehash weights e.name) o
      → RoundEnds weights count e tab hits (logo_hit e (tab, hits) o)
  unfolding logo_hit
  hit-RoundEnds e tab hits (some _) shown (hit k lt same) =
      set k lt (shown-Names weights e (tab k).hash shown (sym same))
  hit-RoundEnds e tab hits none shown (miss absent) = missed (λ j lt n. absent j lt (sym n.hashed))

  round-RoundEnds :
      (e : Entry) (tab : ℕ → CarEntry) (hits : ℕ)
      → Rising tab count
      → (after : (ℕ → CarEntry) × ℕ) × (logo_round weights count e (tab, hits) ≡ some after)
        × RoundEnds weights count e tab hits after
  unfolding logo_round
  round-RoundEnds e tab hits r = elim (Bool-cases (logo_skipped e.name)) [
    | inl skipped ↦ (
      (tab, hits),
      rw skipped refl,
      missed (λ j lt. skipped-Names weights e (tab j).hash skipped),
    )
    | inr shown ↦
        let (o, e1, a) =
          find-Answers tab count (namehash weights e.name) (Rising-Sorted tab count r) small in
        (logo_hit e (tab, hits) o, rw (shown, e1) refl, hit-RoundEnds e tab hits o shown a)
  ]

  RoundEnds-SameKeys :
      (e : Entry) (tab : ℕ → CarEntry) (hits : ℕ) (after : (ℕ → CarEntry) × ℕ)
      → RoundEnds weights count e tab hits after
      → SameKeys after.0 tab
  RoundEnds-SameKeys e tab hits (_, _) (missed no_car) = SameKeys-refl tab
  RoundEnds-SameKeys e tab hits (_, _) (set k lt n) = SameKeys-set_z tab k (u16 e.next)

  -- the last logo for a car, with one more before
  LogoOf-unnamed :
      (hash old z : ℕ) (e : Entry) (logos : List Entry)
      → ¬ (Names weights e hash)
      → LogoOf weights hash old logos z
      → LogoOf weights hash old (e ∷ logos) z
  LogoOf-unnamed hash old z e logos other (unnamed others same) = unnamed (other, others) same
  LogoOf-unnamed hash old z e logos other (named before after f split n others same) =
      named (e ∷ before) after f (ap (λ xs. e ∷ xs) split) n others same

  LogoOf-named :
      (hash old z : ℕ) (e : Entry) (logos : List Entry)
      → Names weights e hash
      → LogoOf weights hash (u16 e.next) logos z
      → LogoOf weights hash old (e ∷ logos) z
  LogoOf-named hash old z e logos n (unnamed others same) = named [] logos e refl n others same
  LogoOf-named hash old z e logos n (named before after f split m others same) =
      named (e ∷ before) after f (ap (λ xs. e ∷ xs) split) m others same

  Hits-SameKeys :
      (a b : ℕ → CarEntry) (logos : List Entry) (n : ℕ)
      → SameKeys a b
      → Hits weights a count logos n
      → Hits weights b count logos n
  Hits-SameKeys a b [] n s no_logo = no_logo
  Hits-SameKeys a b (e ∷ es) (suc n) s (for_car j lt m h) =
      for_car j lt (rw (s.hash j) at m) (Hits-SameKeys a b es n s h)
  Hits-SameKeys a b (e ∷ es) n s (for_none no_car h) =
      for_none (λ j lt m. no_car j lt (rw (s.hash j) m)) (Hits-SameKeys a b es n s h)

  -- the index of car `j` after a hit for car `k`
  LogoOf-set :
      (e : Entry) (tab : ℕ → CarEntry) (k j z : ℕ) (logos : List Entry)
      → Rising tab count
      → k < count
      → j < count
      → Names weights e (tab k).hash
      → LogoOf weights (set_z tab k (u16 e.next) j).hash (set_z tab k (u16 e.next) j).z logos z
      → LogoOf weights (tab j).hash (tab j).z (e ∷ logos) z
  LogoOf-set e tab k j z logos r p q n rest = elim (Bool-cases (j == k)) [
    | inl same ↦
        let here : Names weights e (tab j).hash = rw (==→eq j k same) n in
        LogoOf-named (tab j).hash (tab j).z z e logos here (rw same at rest)
    | inr other ↦
        LogoOf-unnamed (tab j).hash (tab j).z z e logos
          (λ m.
            let e1 : (tab j).hash ≡ (tab k).hash = sym m.hashed ∙ n.hashed in
            let e2 = one_of_hash tab count j k r q p e1 in ground (arith, other, e2))
          (rw other at rest)
  ]

  WalkEnds-more :
      (e f : Entry) (rest : List Entry) (tab : ℕ → CarEntry) (hits : ℕ) (after : (ℕ → CarEntry) × ℕ)
      (res : Outcome CarStatus ℕ × (ℕ → CarEntry))
      → Rising tab count
      → has_end f.flags ≡ false
      → RoundEnds weights count e tab hits after
      → WalkEnds weights count rest after.0 after.1 res
      → WalkEnds weights count (e ∷ f ∷ rest) tab hits res
  WalkEnds-more e f rest tab hits (_, _) (_, _) r on (missed no_car) (short out s) = short out s
  WalkEnds-more e f rest tab hits (_, _) (_, _) r on (set k lt n) (short out s) =
      short out (SameKeys-trans out _ tab s (SameKeys-set_z tab k (u16 e.next)))
  WalkEnds-more e f rest tab hits (_, _) (_, _) r on (missed no_car)
        (walked logos n total out sum p h s l b) =
      walked (e ∷ logos) n total out sum (more on p) (for_none no_car h) s
        (λ j lt. LogoOf-unnamed (tab j).hash (tab j).z (out j).z e logos (no_car j lt) (l j lt)) b
  WalkEnds-more e f rest tab hits (_, _) (_, _) r on (set k lt m)
        (walked logos n total out sum p h s l b) =
      let same = SameKeys-set_z tab k (u16 e.next) in
      walked (e ∷ logos) (suc n) total out (omega (arith, sum)) (more on p)
        (for_car k lt m (Hits-SameKeys (set_z tab k (u16 e.next)) tab logos n same h))
        (SameKeys-trans out (set_z tab k (u16 e.next)) tab s same)
        (λ j below. LogoOf-set e tab k j (out j).z logos r lt below m (l j below))
        (λ j beyond. b j beyond ∙ (let other : (j == k) ≡ false = ground arith in rw other refl))

  WalkEnds-last :
      (e f : Entry) (rest : List Entry) (tab : ℕ → CarEntry) (hits : ℕ) (after : (ℕ → CarEntry) × ℕ)
      → Rising tab count
      → has_end f.flags ≡ true
      → RoundEnds weights count e tab hits after
      → WalkEnds weights count (e ∷ f ∷ rest) tab hits (ok after.1, after.0)
  WalkEnds-last e f rest tab hits (_, _) r end (missed no_car) =
      walked (e ∷ []) 0 hits tab (omega arith) (last end) (for_none no_car no_logo)
        (SameKeys-refl tab) (λ j lt. unnamed (no_car j lt, tt) refl) (λ j beyond. refl)
  WalkEnds-last e f rest tab hits (_, _) r end (set k lt m) =
      walked (e ∷ []) 1 (hits + 1) (set_z tab k (u16 e.next)) refl (last end)
        (for_car k lt m no_logo) (SameKeys-set_z tab k (u16 e.next))
        (λ j below. LogoOf-set e tab k j _ [] r lt below m (unnamed tt refl))
        (λ j beyond. (let other : (j == k) ≡ false = ground arith in rw other refl))

  pub logo_walk-WalkEnds :
      (files : List Entry) (tab : ℕ → CarEntry) (hits : ℕ)
      → Rising tab count
      → (res : Outcome CarStatus ℕ × (ℕ → CarEntry)) × (logo_walk weights count files (tab, hits)
          ≡ some res)
        × WalkEnds weights count files tab hits res
  unfolding logo_walk
  logo_walk-WalkEnds [] tab hits r = (
    (ok hits, tab),
    refl,
    walked [] 0 hits tab (omega arith) all no_logo (SameKeys-refl tab) (λ j lt. unnamed tt refl)
        (λ j beyond. refl),
  )
  logo_walk-WalkEnds (e ∷ []) tab hits r =
      ((err truncated, tab), refl, short tab (SameKeys-refl tab))
  logo_walk-WalkEnds (e ∷ f ∷ rest) tab hits r =
      let (after, e1, ends) = round-RoundEnds e tab hits r in
      elim (Bool-cases (has_end f.flags)) [
        | inl end ↦ (
          (ok after.1, after.0),
          rw (e1, logo_walk, end) refl,
          WalkEnds-last e f rest tab hits after r end ends,
        )
        | inr on ↦
            let kept = RoundEnds-SameKeys e tab hits after ends in
            let (res, e2, more_ends) =
              logo_walk-WalkEnds rest after.0 after.1 (Rising-SameKeys after.0 tab count kept r) in
            (
              res,
              rw (e1, logo_walk, on) e2,
              WalkEnds-more e f rest tab hits after res r on ends more_ends,
            )
      ]
