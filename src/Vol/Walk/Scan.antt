-- ===== src/Vol/Walk/Scan.antt =====
-- The scan of one listing, against a description by positions.
use gt2_recomp.Prelude.{
  ℕ, zero, suc, ◌+◌, ◌<◌, ◌≡◌, ◌≢◌, refl, sym, ◌∙◌, true, false, some, List, [], ◌∷◌, ok, err,
  arith, get_elem?, Bool-cases, inl, inr, ok-injective,
}
use native.Mathlib.Nat.{add-zero}
use gt2_recomp.Bytes.{str_eq}
use gt2_recomp.Bytes.Laws.{str_eq_iff}
use gt2_recomp.Vol.{Slot, not_found, truncated}
use gt2_recomp.Vol.Walk.{Entry, entry_of, has_end, scan}

-- No slot before position `k` is named `comp` or ends the listing.
pub Passed : List ℕ → List Slot → ℕ → Type 0
Passed comp slots k =
    (j : ℕ) (s : Slot)
    → j < k
    → get_elem? slots j ≡ some s
    → (s.name ≢ comp) × (has_end s.flags ≡ false)

-- `e` is the first slot named `comp`, and stands in the listing that starts at slot `i`.
pub record Listed (comp : List ℕ) (slots : List Slot) (i : ℕ) (e : Entry) : Type 0 where
  pub pos : ℕ
  pub hit : Slot
  pub is_at : get_elem? slots pos ≡ some hit
  pub named : hit.name ≡ comp
  pub passed : Passed comp slots pos
  pub entry : e ≡ entry_of (i + pos) hit

-- the listing ends at position `pos`, and no slot of it is named `comp`
pub record Unlisted (comp : List ℕ) (slots : List Slot) : Type 0 where
  pub pos : ℕ
  pub last : Slot
  pub is_at : get_elem? slots pos ≡ some last
  pub other : last.name ≢ comp
  pub ends : has_end last.flags ≡ true
  pub passed : Passed comp slots pos

module _ (comp : List ℕ) (s : Slot) (rest : List Slot) (i : ℕ) where
  scan-hit : s.name ≡ comp → scan comp (s ∷ rest) i ≡ ok (entry_of i s)
  unfolding scan
  scan-hit h = rw ((str_eq_iff s.name comp).1 h) refl

  scan-end :
      str_eq s.name comp ≡ false → has_end s.flags ≡ true → scan comp (s ∷ rest) i ≡ err not_found
  unfolding scan
  scan-end h e = rw (h, e) refl

  scan-next :
      str_eq s.name comp ≡ false
      → has_end s.flags ≡ false
      → scan comp (s ∷ rest) i ≡ scan comp rest (i + 1)
  unfolding scan
  scan-next h e = rw (h, e) refl

  other_name : str_eq s.name comp ≡ false → s.name ≢ comp
  other_name h e = cc (h, (str_eq_iff s.name comp).1 e)

  Passed-suc :
      (k : ℕ)
      → s.name ≢ comp
      → has_end s.flags ≡ false
      → Passed comp rest k
      → Passed comp (s ∷ rest) (suc k)
  unfolding Passed
  Passed-suc k h e p zero t lt at = let same : s ≡ t = cc in rw (← same) (h, e)
  Passed-suc k h e p (suc j) t lt at = p j t (omega arith) at

scan-nil : (comp : List ℕ) (i : ℕ) → scan comp [] i ≡ err truncated
unfolding scan
scan-nil comp i = refl

Listed-here :
    (comp : List ℕ) (s : Slot) (rest : List Slot) (i : ℕ)
    → s.name ≡ comp
    → Listed comp (s ∷ rest) i (entry_of i s)
unfolding Passed
Listed-here comp s rest i h = record {
  pos = 0;
  hit = s;
  is_at = refl;
  named = h;
  passed = λ j t lt at. elim lt [ ];
  entry = rw add-zero refl;
}

Listed-there :
    (comp : List ℕ) (s : Slot) (rest : List Slot) (i : ℕ) {e : Entry}
    → str_eq s.name comp ≡ false
    → has_end s.flags ≡ false
    → Listed comp rest (i + 1) e
    → Listed comp (s ∷ rest) i e
Listed-there comp s rest i h n l = record {
  pos = suc l.pos;
  hit = l.hit;
  is_at = l.is_at;
  named = l.named;
  passed = Passed-suc comp s rest i l.pos (other_name comp s rest i h) n l.passed;
  entry = let a : i + suc l.pos ≡ i + 1 + l.pos = omega arith in rw a l.entry;
}

-- What the scan finds is the first slot of the listing with that name.
pub scan-Listed :
    (comp : List ℕ) (slots : List Slot) (i : ℕ) (e : Entry)
    → scan comp slots i ≡ ok e
    → Listed comp slots i e
scan-Listed comp [] i e h = cc (h, scan-nil comp i)
scan-Listed comp (s ∷ rest) i e h = elim (Bool-cases (str_eq s.name comp)) [
  | inl same ↦
      let n = (str_eq_iff s.name comp).0 same in
      rw (← ok-injective (sym (scan-hit comp s rest i n) ∙ h)) (Listed-here comp s rest i n)
  | inr differ ↦ elim (Bool-cases (has_end s.flags)) [
    | inl last ↦ cc (h, scan-end comp s rest i differ last)
    | inr more ↦
        Listed-there comp s rest i differ more
          (scan-Listed comp rest (i + 1) e (sym (scan-next comp s rest i differ more) ∙ h))
  ]
]

str_eq_of_ne : (a b : List ℕ) → a ≢ b → str_eq a b ≡ false
str_eq_of_ne a b h = elim (Bool-cases (str_eq a b)) [
  | inl e ↦ absurd (h ((str_eq_iff a b).0 e))
  | inr e ↦ e
]

scan_at :
    (comp : List ℕ) (slots : List Slot) (i k : ℕ) (s : Slot)
    → get_elem? slots k ≡ some s
    → s.name ≡ comp
    → Passed comp slots k
    → scan comp slots i ≡ ok (entry_of (i + k) s)
unfolding Passed
scan_at comp [] i k s at n p = cc
scan_at comp (t ∷ rest) i zero s at n p =
    let same : t ≡ s = cc in rw (add-zero, ← same) (scan-hit comp t rest i (rw same n))
scan_at comp (t ∷ rest) i (suc k) s at n p =
    let skip = p zero t (omega arith) refl in
    let a : i + suc k ≡ i + 1 + k = omega arith in
    scan-next comp t rest i (str_eq_of_ne t.name comp skip.0) skip.1
    ∙ rw a (scan_at comp rest (i + 1) k s at n (λ j u lt h. p (suc j) u (omega arith) h))

-- The first slot of the listing with that name is what the scan finds.
pub Listed-scan :
    (comp : List ℕ) (slots : List Slot) (i : ℕ) (e : Entry)
    → Listed comp slots i e
    → scan comp slots i ≡ ok e
Listed-scan comp slots i e l =
    rw l.entry (scan_at comp slots i l.pos l.hit l.is_at l.named l.passed)

scan_end_at :
    (comp : List ℕ) (slots : List Slot) (i k : ℕ) (s : Slot)
    → get_elem? slots k ≡ some s
    → s.name ≢ comp
    → has_end s.flags ≡ true
    → Passed comp slots k
    → scan comp slots i ≡ err not_found
unfolding Passed
scan_end_at comp [] i k s at n e p = cc
scan_end_at comp (t ∷ rest) i zero s at n e p =
    let same : t ≡ s = cc in
    scan-end comp t rest i (str_eq_of_ne t.name comp (rw same n)) (rw same e)
scan_end_at comp (t ∷ rest) i (suc k) s at n e p =
    let skip = p zero t (omega arith) refl in
    scan-next comp t rest i (str_eq_of_ne t.name comp skip.0) skip.1
    ∙ scan_end_at comp rest (i + 1) k s at n e (λ j u lt h. p (suc j) u (omega arith) h)

-- A listing that ends without the name is reported as not found.
pub Unlisted-scan :
    (comp : List ℕ) (slots : List Slot) (i : ℕ)
    → Unlisted comp slots
    → scan comp slots i ≡ err not_found
Unlisted-scan comp slots i u = scan_end_at comp slots i u.pos u.last u.is_at u.other u.ends u.passed
