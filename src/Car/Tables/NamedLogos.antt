-- ===== src/Car/Tables/NamedLogos.antt =====
-- What the logos of a directory say of the cars of a table, for gt2_car_logo_annotate.
use gt2_recomp.Prelude.{
  ℕ, suc, ◌<◌, ◌≡◌, ◌≢◌, ◌⊎◌, refl, ap, ◌∙◌, true, false, none, some, List, [], ◌∷◌, ◌++◌, arith,
  ltb, ◌==◌, Bool-cases, inl, inr, get_elem?, get_or, length, All,
}
use gt2_recomp.Bytes.{Bytes, u16}
use gt2_recomp.Vol.Walk.{Entry, has_end}
use gt2_recomp.Car.{CarEntry, namehash}
use gt2_recomp.Car.Search.{Sorted}
use gt2_recomp.Car.Tables.{set_z, logo_skipped}

-- two tables with the same hashes and the same indices
pub record SameKeys (a b : ℕ → CarEntry) : Type 0 where
  pub hash : (k : ℕ) → (a k).hash ≡ (b k).hash
  pub index : (k : ℕ) → (a k).index ≡ (b k).index

pub SameKeys-refl : (a : ℕ → CarEntry) → SameKeys a a
SameKeys-refl a = record { hash = λ k. refl; index = λ k. refl }

pub SameKeys-trans : (a b c : ℕ → CarEntry) → SameKeys a b → SameKeys b c → SameKeys a c
SameKeys-trans a b c p q = record {
  hash = λ k. p.hash k ∙ q.hash k;
  index = λ k. p.index k ∙ q.index k;
}

pub SameKeys-set_z : (a : ℕ → CarEntry) (k z : ℕ) → SameKeys (set_z a k z) a
SameKeys-set_z a k z = record {
  hash = λ j. elim (Bool-cases (j == k)) [ inl e ↦ rw e refl | inr e ↦ rw e refl ];
  index = λ j. elim (Bool-cases (j == k)) [ inl e ↦ rw e refl | inr e ↦ rw e refl ];
}

-- the hashes rise
pub record Rising (tab : ℕ → CarEntry) (count : ℕ) : Type 0 where
  pub rise : (i j : ℕ) → i < j → j < count → (tab i).hash < (tab j).hash

pub Rising-SameKeys :
    (a b : ℕ → CarEntry) (count : ℕ) → SameKeys a b → Rising b count → Rising a count
Rising-SameKeys a b count s r = record {
  rise = λ i j lt top. omega (arith, s.hash i, s.hash j, r.rise i j lt top);
}

pub Rising-Sorted : (tab : ℕ → CarEntry) (count : ℕ) → Rising tab count → Sorted tab count
Rising-Sorted tab count r = record {
  mono = λ i j le top. elim (Bool-cases (ltb i j)) [
    | inl lt ↦ omega (arith, r.rise i j (ground (arith, lt)) top)
    | inr same ↦ let e : i ≡ j = ground (arith, same) in omega (arith, ap (λ k. (tab k).hash) e)
  ];
}

pub one_of_hash :
    (tab : ℕ → CarEntry) (count i j : ℕ)
    → Rising tab count
    → i < count
    → j < count
    → (tab i).hash ≡ (tab j).hash
    → i ≡ j
one_of_hash tab count i j r p q e = elim (Bool-cases (ltb i j)) [
  | inl lt ↦ absurd (omega (arith, e, r.rise i j (ground (arith, lt)) q))
  | inr ge ↦ elim (Bool-cases (ltb j i)) [
    | inl lt ↦ absurd (omega (arith, e, r.rise j i (ground (arith, lt)) p))
    | inr le ↦ ground (arith, ge, le)
  ]
]

-- A logo is for the car whose hash is that of the logo's name, unless byte 5 of the name is 'p' or 'q'.
pub record Names (weights : Bytes) (e : Entry) (hash : ℕ) : Type 0 where
  pub no_p : get_elem? e.name 5 ≢ some b'p'
  pub no_q : get_elem? e.name 5 ≢ some b'q'
  pub hashed : namehash weights e.name ≡ hash

-- The logos of a directory are the first files of its pairs, up to the pair whose second file has the
-- end flag, or all of them.
pub data Pairs : List Entry → List Entry → Type 0 where
  last : {e f : Entry} {rest : List Entry} → has_end f.flags ≡ true → Pairs (e ∷ f ∷ rest) (e ∷ [])
  more :
      {e f : Entry} {rest logos : List Entry}
      → has_end f.flags ≡ false
      → Pairs rest logos
      → Pairs (e ∷ f ∷ rest) (e ∷ logos)
  all : Pairs [] []

-- The index that a car with this hash has after the logos: that of the last one for it, or as before.
pub data LogoOf (weights : Bytes) (hash old : ℕ) (logos : List Entry) (z : ℕ) : Type 0 where
  unnamed : All (λ e. ¬ (Names weights e hash)) logos → z ≡ old → LogoOf weights hash old logos z
  named :
      (before after : List Entry) (e : Entry)
      → logos ≡ before ++ e ∷ after
      → Names weights e hash
      → All (λ f. ¬ (Names weights f hash)) after
      → z ≡ u16 e.next
      → LogoOf weights hash old logos z

-- how many of the logos are for a car of the table
pub data Hits (weights : Bytes) (tab : ℕ → CarEntry) (count : ℕ) : List Entry → ℕ → Type 0 where
  no_logo : Hits weights tab count [] 0
  for_car :
      {e : Entry} {es : List Entry} {n : ℕ} (j : ℕ)
      → j < count
      → Names weights e (tab j).hash
      → Hits weights tab count es n
      → Hits weights tab count (e ∷ es) (suc n)
  for_none :
      {e : Entry} {es : List Entry} {n : ℕ}
      → ((j : ℕ) → j < count → ¬ (Names weights e (tab j).hash))
      → Hits weights tab count es n
      → Hits weights tab count (e ∷ es) n

-- byte 5 of a name
fifth :
    (name : List ℕ)
    → (get_elem? name 5 ≡ none) × (ltb 5 (length name) ≡ false)
      ⊎ ((get_elem? name 5 ≡ some (get_or name 5 0)) × (ltb 5 (length name) ≡ true))
fifth [] = inl (refl, refl)
fifth (a ∷ []) = inl (refl, refl)
fifth (a ∷ b ∷ []) = inl (refl, refl)
fifth (a ∷ b ∷ c ∷ []) = inl (refl, refl)
fifth (a ∷ b ∷ c ∷ d ∷ []) = inl (refl, refl)
fifth (a ∷ b ∷ c ∷ d ∷ e ∷ []) = inl (refl, refl)
fifth (a ∷ b ∷ c ∷ d ∷ e ∷ f ∷ rest) = inr (refl, ground arith)

pub skipped-Names :
    (weights : Bytes) (e : Entry) (hash : ℕ) → logo_skipped e.name ≡ true → ¬ (Names weights e hash)
unfolding logo_skipped
skipped-Names weights e hash h n = elim (fifth e.name) [
  | inl (no_byte, short) ↦ ground (arith, h, short)
  | inr (byte, long) ↦ ground (arith, h, long, byte, n.no_p, n.no_q)
]

pub shown-Names :
    (weights : Bytes) (e : Entry) (hash : ℕ)
    → logo_skipped e.name ≡ false
    → namehash weights e.name ≡ hash
    → Names weights e hash
unfolding logo_skipped
shown-Names weights e hash h same = elim (fifth e.name) [
  | inl (no_byte, short) ↦ record {
    no_p = λ p. cc (no_byte, p);
    no_q = λ q. cc (no_byte, q);
    hashed = same;
  }
  | inr (byte, long) ↦ record {
    no_p = λ p. ground (arith, h, long, byte, p);
    no_q = λ q. ground (arith, h, long, byte, q);
    hashed = same;
  }
]
