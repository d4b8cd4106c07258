-- ===== src/Car/Build.antt =====
-- The index that gt2_car_index_build makes of a listing, by positions.
use gt2_recomp.Prelude.{
  ℕ, zero, suc, ◌+◌, ◌*◌, ◌<◌, ◌≤◌, ◌≡◌, refl, sym, ◌∙◌, false, some, List, [], ◌∷◌, ok, err, arith,
  leb, if◌then◌else◌, Bool-cases, inl, inr, get_elem?, length, >>=-eq-ok, ok-injective,
}
use gt2_recomp.Bytes.{Bytes}
use gt2_recomp.Vol.Walk.{Entry, has_end}
use gt2_recomp.Car.{CarEntry, nospace, car_entry, stride}

-- `es` holds every fourth entry of the listing `l` from its front on. It goes on while the entry three
-- ahead does not end the listing, and stops there or where the listing is used up.
pub record Strided (weights : Bytes) (l : List Entry) (es : List CarEntry) : Type 0 where
  pub nonempty : 0 < length es
  pub copied :
      (j : ℕ) (e : Entry)
      → j < length es
      → get_elem? l (j * 4) ≡ some e
      → get_elem? es j ≡ some (car_entry weights e)
  pub inside : (j : ℕ) → j < length es → j * 4 < length l
  pub goes_on :
      (j : ℕ) (c : Entry)
      → suc j < length es
      → get_elem? l (j * 4 + 3) ≡ some c
      → has_end c.flags ≡ false
  pub stops :
      (j : ℕ) (c : Entry)
      → suc j ≡ length es
      → get_elem? l (j * 4 + 3) ≡ some c
      → has_end c.flags ≡ false
      → length l ≤ j * 4 + 4

one_entry :
    (weights : Bytes) (e : Entry) (l : List Entry)
    → ((c : Entry) → get_elem? (e ∷ l) 3 ≡ some c → has_end c.flags ≡ false → length (e ∷ l) ≤ 4)
    → Strided weights (e ∷ l) (car_entry weights e ∷ [])
one_entry weights e l last = record {
  nonempty = omega arith;
  copied = copies;
  inside = λ j h. omega arith;
  goes_on = λ j c h at. absurd (omega arith);
  stops = stopped;
}
  where
    copies :
        (j : ℕ) (d : Entry)
        → j < 1
        → get_elem? (e ∷ l) (j * 4) ≡ some d
        → get_elem? (car_entry weights e ∷ []) j ≡ some (car_entry weights d)
    copies zero d h at = let same : e ≡ d = cc in rw same refl
    copies (suc j) d h at = absurd (omega arith)

    stopped :
        (j : ℕ) (c : Entry)
        → suc j ≡ 1
        → get_elem? (e ∷ l) (j * 4 + 3) ≡ some c
        → has_end c.flags ≡ false
        → length (e ∷ l) ≤ j * 4 + 4
    stopped zero c h at open_end = last c at open_end
    stopped (suc j) c h at open_end = absurd (omega arith)

fourth :
    (e a b c : Entry) (rest : List Entry) (j k i : ℕ)
    → i ≡ suc j * 4 + k
    → get_elem? (e ∷ a ∷ b ∷ c ∷ rest) i ≡ get_elem? rest (j * 4 + k)
fourth e a b c rest j k i h =
    let p : i ≡ suc (suc (suc (suc (j * 4 + k)))) = omega arith in rw p refl

one_more :
    (weights : Bytes) (e a b c : Entry) (rest : List Entry) (es : List CarEntry)
    → has_end c.flags ≡ false
    → Strided weights rest es
    → Strided weights (e ∷ a ∷ b ∷ c ∷ rest) (car_entry weights e ∷ es)
one_more weights e a b c rest es open_end s = record {
  nonempty = omega arith;
  copied = copies;
  inside = inner;
  goes_on = going;
  stops = stopped;
}
  where
    copies :
        (j : ℕ) (d : Entry)
        → j < length (car_entry weights e ∷ es)
        → get_elem? (e ∷ a ∷ b ∷ c ∷ rest) (j * 4) ≡ some d
        → get_elem? (car_entry weights e ∷ es) j ≡ some (car_entry weights d)
    copies zero d h at = let same : e ≡ d = cc in rw same refl
    copies (suc j) d h at =
        let z : j * 4 + 0 ≡ j * 4 = omega arith in
        s.copied j d (omega arith)
          (rw z at (sym (fourth e a b c rest j 0 (suc j * 4) (omega arith)) ∙ at))

    inner : (j : ℕ) → j < length (car_entry weights e ∷ es) → j * 4 < length (e ∷ a ∷ b ∷ c ∷ rest)
    inner zero h = omega arith
    inner (suc j) h = omega (arith, s.inside j (omega arith))

    going :
        (j : ℕ) (d : Entry)
        → suc j < length (car_entry weights e ∷ es)
        → get_elem? (e ∷ a ∷ b ∷ c ∷ rest) (j * 4 + 3) ≡ some d
        → has_end d.flags ≡ false
    going zero d h at = let same : c ≡ d = cc in rw (← same) open_end
    going (suc j) d h at =
        s.goes_on j d (omega arith)
          (sym (fourth e a b c rest j 3 (suc j * 4 + 3) (omega arith)) ∙ at)

    stopped :
        (j : ℕ) (d : Entry)
        → suc j ≡ length (car_entry weights e ∷ es)
        → get_elem? (e ∷ a ∷ b ∷ c ∷ rest) (j * 4 + 3) ≡ some d
        → has_end d.flags ≡ false
        → length (e ∷ a ∷ b ∷ c ∷ rest) ≤ j * 4 + 4
    stopped zero d h at keep = absurd (omega (arith, s.nonempty))
    stopped (suc j) d h at keep = omega (
      arith,
      s.stops j d (omega arith) (sym (fourth e a b c rest j 3 (suc j * 4 + 3) (omega arith)) ∙ at)
          keep,
    )

room_for :
    (weights : Bytes) (limit n : ℕ) (e : Entry) (es : List CarEntry)
    → (if leb limit (n + 1) then err nospace else ok (car_entry weights e ∷ [])) ≡ ok es
    → (n + 1 < limit) × (car_entry weights e ∷ [] ≡ es)
room_for weights limit n e es h = (ground arith, ground arith)

stride_stopped :
    (weights : Bytes) (limit n : ℕ) (e : Entry) (l : List Entry) (es : List CarEntry)
    → ((c : Entry) → get_elem? (e ∷ l) 3 ≡ some c → has_end c.flags ≡ false → length (e ∷ l) ≤ 4)
    → (n + 1 < limit) × (car_entry weights e ∷ [] ≡ es)
    → Strided weights (e ∷ l) es × (n + length es < limit)
stride_stopped weights limit n e l es last (room, same) =
    rw (← same) (one_entry weights e l last, omega arith)

pub stride-Strided :
    (weights : Bytes) (limit n : ℕ) (e : Entry) (l : List Entry) (es : List CarEntry)
    → stride weights limit n (e ∷ l) ≡ ok es
    → Strided weights (e ∷ l) es × (n + length es < limit)
unfolding stride
stride-Strided weights limit n e [] es h =
    stride_stopped weights limit n e [] es (λ c at keep. omega arith)
      (room_for weights limit n e es h)
stride-Strided weights limit n e (a ∷ []) es h =
    stride_stopped weights limit n e (a ∷ []) es (λ c at keep. omega arith)
      (room_for weights limit n e es h)
stride-Strided weights limit n e (a ∷ b ∷ []) es h =
    stride_stopped weights limit n e (a ∷ b ∷ []) es (λ c at keep. omega arith)
      (room_for weights limit n e es h)
stride-Strided weights limit n e (a ∷ b ∷ c ∷ []) es h =
    stride_stopped weights limit n e (a ∷ b ∷ c ∷ []) es (λ d at keep. omega arith)
      (room_for weights limit n e es (elim (Bool-cases (has_end c.flags)) [
        | inl ends ↦ rw ends at h
        | inr open_end ↦ rw open_end at h
      ]))
stride-Strided weights limit n e (a ∷ b ∷ c ∷ f ∷ rest) es h = elim (Bool-cases (has_end c.flags)) [
  | inl ends ↦
      stride_stopped weights limit n e (a ∷ b ∷ c ∷ f ∷ rest) es
        (λ d at keep. let same : c ≡ d = cc in absurd (cc (same, ends, keep)))
        (room_for weights limit n e es (rw ends at h))
  | inr open_end ↦ elim (Bool-cases (leb limit (n + 1))) [
    | inl full ↦ cc (rw (open_end, full) at h)
    | inr room ↦
        let (more, r, same) =
          >>=-eq-ok (stride weights limit (n + 1) (f ∷ rest))
            (λ more. ok (car_entry weights e ∷ more)) (rw (open_end, room) at h) in
        let (s, fits) = stride-Strided weights limit (n + 1) f rest more r in
        let same' : car_entry weights e ∷ more ≡ es = ok-injective same in
        rw (← same') (one_more weights e a b c (f ∷ rest) more open_end s, omega arith)
  ]
]
