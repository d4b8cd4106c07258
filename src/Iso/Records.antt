-- ===== src/Iso/Records.antt =====
-- The first record of a directory sector that has a name, and the scan for it.
use gt2_recomp.Prelude.{
  ℕ, zero, suc, ◌+◌, ◌≤◌, ◌<◌, ◌≡◌, ◌≢◌, ◌↔◌, ◌⊎◌, refl, sym, ◌∙◌, true, false, Option, none, some,
  List, [], ◌∷◌, ok, err, leb, ◌==◌, length, arith, Bool-cases, inl, inr, get_elem?, tests, ==→ne,
}
use gt2_recomp.Bytes.{Bytes}
use gt2_recomp.Cd.{sector_size}
use gt2_recomp.Iso.{
  IsoStatus, io, IsoEntry, upper, same_ci, name_equal_ci, entry_at, is_hit, scan_sector,
}

-- A record of a sector: not the padding, and inside the sector up to its name.
pub record IsRecord (sec : Bytes) (off : ℕ) : Type 0 where
  pub present : 0 < sec off
  pub inside : off + sec off ≤ sector_size
  pub named : off + 33 ≤ sector_size

-- The name of the record at `off`, which it holds whole, is `path` up to the case of letters.
pub record Names (sec : Bytes) (off : ℕ) (path : List ℕ) : Type 0 where
  pub some_name : 0 < sec (off + 32)
  pub holds_name : 33 + sec (off + 32) ≤ sec off
  pub same_length : length path ≡ sec (off + 32)
  pub same_letters : (i b : ℕ) → get_elem? path i ≡ some b → upper (sec (off + 33 + i)) ≡ upper b

-- `e` is the first record of the sector from `off` on that has the name.
pub data InSector (sec : Bytes) (path : List ℕ) (e : IsoEntry) : ℕ → Type 0 where
  hit :
      {off : ℕ}
      → IsRecord sec off
      → Names sec off path
      → e ≡ entry_at sec off
      → InSector sec path e off
  skip :
      {off : ℕ}
      → IsRecord sec off
      → ¬ Names sec off path
      → InSector sec path e (off + sec off)
      → InSector sec path e off

-- The sector is sound from `off` to its padding or its end, and no record there has the name.
pub data Lacks (sec : Bytes) (path : List ℕ) : ℕ → Type 0 where
  at_end : {off : ℕ} → sector_size ≤ off → Lacks sec path off
  padded : {off : ℕ} → sec off ≡ 0 → Lacks sec path off
  skip :
      {off : ℕ}
      → IsRecord sec off
      → ¬ Names sec off path
      → Lacks sec path (off + sec off)
      → Lacks sec path off

-- the letters from `o` on are those of the path, up to case
abbrev SameLetters : Bytes → ℕ → List ℕ → Type 0
SameLetters m o path = (i b : ℕ) → get_elem? path i ≡ some b → upper (m (o + i)) ≡ upper b

same_ci-SameLetters :
    (m : Bytes) (o : ℕ) (path : List ℕ) → same_ci m o path ≡ true → SameLetters m o path
unfolding same_ci
same_ci-SameLetters m o [] h i b e = cc
same_ci-SameLetters m o (c ∷ cs) h zero b e =
    let z : o + 0 ≡ o = omega arith in
    let first : upper (m o) ≡ upper c = ground arith in
    let same : c ≡ b = grind arith in cc (z, first, same)
same_ci-SameLetters m o (c ∷ cs) h (suc i) b e =
    let s : o + 1 + i ≡ o + suc i = omega arith in
    rw s at (same_ci-SameLetters m (o + 1) cs (ground arith) i b e)

SameLetters-same_ci :
    (m : Bytes) (o : ℕ) (path : List ℕ) → SameLetters m o path → same_ci m o path ≡ true
unfolding same_ci
SameLetters-same_ci m o [] h = refl
SameLetters-same_ci m o (c ∷ cs) h =
    let z : o + 0 ≡ o = omega arith in
    let first : upper (m o) ≡ upper c = rw z at (h 0 c refl) in
    let later : SameLetters m (o + 1) cs =
      λ i b e. (let s : o + 1 + i ≡ o + suc i = omega arith in rw s (h (suc i) b e)) in
    let rest = SameLetters-same_ci m (o + 1) cs later in ground (arith, rest)

is_hit_iff :
    (sec : Bytes) (path : List ℕ) (off : ℕ) → (is_hit sec path off ≡ true) ↔ Names sec off path
unfolding is_hit name_equal_ci
is_hit_iff sec path off =
    let f = same_ci-SameLetters sec (off + 33) path in
    let g = SameLetters-same_ci sec (off + 33) path in
    (
      λ h. record {
        some_name = ground arith;
        holds_name = ground arith;
        same_length = ground arith;
        same_letters = f (ground arith);
      },
      λ n. let s = g n.same_letters in ground (arith, s, n),
    )

missed :
    (sec : Bytes) (path : List ℕ) (off : ℕ) → ¬ Names sec off path → is_hit sec path off ≡ false
missed sec path off n = elim (Bool-cases (is_hit sec path off)) [
  | inl h ↦ absurd (n ((is_hit_iff sec path off).0 h))
  | inr h ↦ h
]

not_named :
    (sec : Bytes) (path : List ℕ) (off : ℕ) → is_hit sec path off ≡ false → ¬ Names sec off path
not_named sec path off h n = cc (h, (is_hit_iff sec path off).1 n)

module _ (f : ℕ) (sec : Bytes) (path : List ℕ) (off : ℕ) where
  scan_hit :
      IsRecord sec off
      → is_hit sec path off ≡ true
      → scan_sector (suc f) sec path off ≡ ok (some (entry_at sec off))
  unfolding scan_sector
  scan_hit r h = ground arith

  scan_skip :
      IsRecord sec off
      → is_hit sec path off ≡ false
      → scan_sector (suc f) sec path off ≡ scan_sector f sec path (off + sec off)
  unfolding scan_sector
  scan_skip r h = ground arith

  scan_padded : sec off ≡ 0 → scan_sector (suc f) sec path off ≡ ok none
  unfolding scan_sector
  scan_padded h = ground arith

  scan-IsRecord :
      (o : Option IsoEntry)
      → sec off ≢ 0
      → off < sector_size
      → scan_sector (suc f) sec path off ≡ ok o
      → IsRecord sec off
  unfolding scan_sector
  scan-IsRecord o n l h = record {
    present = omega arith;
    inside = ground arith;
    named = ground arith;
  }

scan_out : (sec : Bytes) (path : List ℕ) (off : ℕ) → scan_sector 0 sec path off ≡ ok none
unfolding scan_sector
scan_out sec path off = refl

scan_ends :
    (f : ℕ) (sec : Bytes) (path : List ℕ) (off : ℕ)
    → sector_size ≤ off
    → scan_sector f sec path off ≡ ok none
unfolding scan_sector
scan_ends zero sec path off h = refl
scan_ends (suc f) sec path off h = ground arith

pub scan_sector-InSector :
    (f : ℕ) (sec : Bytes) (path : List ℕ) (off : ℕ) (e : IsoEntry)
    → scan_sector f sec path off ≡ ok (some e)
    → InSector sec path e off
unfolding scan_sector
scan_sector-InSector zero sec path off e h = cc
scan_sector-InSector (suc f) sec path off e h =
    let n : sec off ≢ 0 = ground arith in
    let l : off < sector_size = ground arith in
    let r = scan-IsRecord f sec path off (some e) n l h in
    elim (Bool-cases (is_hit sec path off)) [
      | inl yes_hit ↦
          hit r ((is_hit_iff sec path off).0 yes_hit) (cc (h, scan_hit f sec path off r yes_hit))
      | inr no_hit ↦ skip r (not_named sec path off no_hit) (
          scan_sector-InSector f sec path (off + sec off) e
            (sym (scan_skip f sec path off r no_hit) ∙ h))
    ]

pub InSector-scan_sector :
    (f : ℕ) (sec : Bytes) (path : List ℕ) (off : ℕ) (e : IsoEntry)
    → sector_size ≤ off + f
    → InSector sec path e off
    → scan_sector f sec path off ≡ ok (some e)
InSector-scan_sector zero sec path off e h (hit r n q) = absurd (omega (arith, r))
InSector-scan_sector zero sec path off e h (skip r n i) = absurd (omega (arith, r))
InSector-scan_sector (suc f) sec path off e h (hit r n q) =
    cc (scan_hit f sec path off r ((is_hit_iff sec path off).1 n), q)
InSector-scan_sector (suc f) sec path off e h (skip r n i) =
    scan_skip f sec path off r (missed sec path off n)
    ∙ InSector-scan_sector f sec path (off + sec off) e (omega (arith, r)) i

pub scan_sector-Lacks :
    (f : ℕ) (sec : Bytes) (path : List ℕ) (off : ℕ)
    → sector_size ≤ off + f
    → scan_sector f sec path off ≡ ok none
    → Lacks sec path off
scan_sector-Lacks zero sec path off le h = at_end (omega arith)
scan_sector-Lacks (suc f) sec path off le h = elim (Bool-cases (leb sector_size off)) [
  | inl out ↦ at_end (omega tests)
  | inr inside ↦ elim (Bool-cases (sec off == 0)) [
    | inl pad ↦ padded (omega tests)
    | inr full ↦
        let r = scan-IsRecord f sec path off none (==→ne (sec off) 0 full) (ground arith) h in
        elim (Bool-cases (is_hit sec path off)) [
          | inl yes_hit ↦ cc (h, scan_hit f sec path off r yes_hit)
          | inr no_hit ↦ skip r (not_named sec path off no_hit) (
              scan_sector-Lacks f sec path (off + sec off) (omega (arith, r))
                (sym (scan_skip f sec path off r no_hit) ∙ h))
        ]
  ]
]

pub Lacks-scan_sector :
    (f : ℕ) (sec : Bytes) (path : List ℕ) (off : ℕ)
    → sector_size ≤ off + f
    → Lacks sec path off
    → scan_sector f sec path off ≡ ok none
Lacks-scan_sector zero sec path off le l = scan_ends zero sec path off (omega arith)
Lacks-scan_sector (suc f) sec path off le (at_end h) = scan_ends (suc f) sec path off h
Lacks-scan_sector (suc f) sec path off le (padded h) = scan_padded f sec path off h
Lacks-scan_sector (suc f) sec path off le (skip r n l) =
    scan_skip f sec path off r (missed sec path off n)
    ∙ Lacks-scan_sector f sec path (off + sec off) (omega (arith, r)) l

round-err :
    (f : ℕ) (sec : Bytes) (path : List ℕ) (off : ℕ) (s : IsoStatus)
    → scan_sector (suc f) sec path off ≡ err s
    → (s ≡ io) ⊎ (scan_sector f sec path (off + sec off) ≡ err s)
unfolding scan_sector
round-err f sec path off s h = ground arith

-- A sector fails with an i/o error only.
pub scan_sector-err :
    (f : ℕ) (sec : Bytes) (path : List ℕ) (off : ℕ) (s : IsoStatus)
    → scan_sector f sec path off ≡ err s
    → s ≡ io
scan_sector-err zero sec path off s h = cc (h, scan_out sec path off)
scan_sector-err (suc f) sec path off s h = elim (round-err f sec path off s h) [
  | inl now ↦ now
  | inr later ↦ scan_sector-err f sec path (off + sec off) s later
]
