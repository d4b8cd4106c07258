-- ===== src/Ovl/Layout.antt =====
-- Where the members of an opened container lie.
use gt2_recomp.Prelude.{
  ℕ, zero, suc, ◌+◌, ◌-◌, ◌*◌, ◌^◌, ◌≤◌, ◌<◌, ◌≡◌, refl, sym, ap, Bool, true, ok, ◌==◌, arith,
  ==→eq, Bool-cases, inl, inr, >>=-eq-ok, guard, or_fail,
}
use gt2_recomp.Bytes.{Bytes, u32, le32, zeros}
use gt2_recomp.Cd.{Cd, sector_size, pread}
use gt2_recomp.Iso.{IsoEntry, stat}
use gt2_recomp.Ovl.{
  Ovl, members, handle_of, member_end, member_ok, sane, checked, open_ovl, io, not_found, no_mem,
  ovl_name,
}

-- What the sanity loop has checked of one member, the sum still wrapping at 2 ^ 32.
pub record Checked (o : Ovl) (i : ℕ) : Type 0 where
  pub later : o.off 0 ≤ o.off i
  pub non_empty : 0 < o.comp i
  pub ends : u32 (o.off i + o.comp i) ≤ member_end o i
  pub inside : member_end o i ≤ o.file_size

-- The members lie in the file, none is empty, and they follow one another.
pub record Laid (o : Ovl) : Type 0 where
  pub non_empty : (i : ℕ) → i < members → 0 < o.comp i
  pub inside : (i : ℕ) → i < members → o.off i + o.comp i ≤ o.file_size
  pub ordered : (i j : ℕ) → i < j → j < members → o.off i + o.comp i ≤ o.off j

member_ok-Checked : (o : Ovl) (i : ℕ) → member_ok (o.off 0) o i ≡ true → Checked o i
unfolding member_ok
member_ok-Checked o i h = record {
  later = ground arith;
  non_empty = ground arith;
  ends = ground arith;
  inside = ground arith;
}

sane-Checked :
    (n : ℕ) (o : Ovl) (from i : ℕ)
    → sane n (o.off 0) o from ≡ true
    → from ≤ i
    → i < from + n
    → Checked o i
unfolding sane
sane-Checked zero o from i h le lt = absurd (omega arith)
sane-Checked (suc n) o from i h le lt = elim (Bool-cases (from == i)) [
  | inl here ↦ rw (==→eq from i here) at (member_ok-Checked o from (ground arith))
  | inr later ↦ sane-Checked n o (from + 1) i (ground arith) (ground arith) (omega arith)
]

member_end_inner : (o : Ovl) (i : ℕ) → i + 1 < members → member_end o i ≡ o.off (i + 1)
unfolding member_end
member_end_inner o i h = ground arith

checked-sane : (o p : Ovl) (first : ℕ) → checked o first ≡ ok p → sane members first o 0 ≡ true
unfolding checked
checked-sane o p first h = ground arith

checked_same : (o p : Ovl) (first : ℕ) → checked o first ≡ ok p → o ≡ p
unfolding checked
checked_same o p first h = ground arith

gap : (i j : ℕ) → i < j → (d : ℕ) × (i + 1 + d ≡ j)
gap i j h = (j - (i + 1), omega arith)

module _ (o : Ovl) (checks : (i : ℕ) → i < members → Checked o i)
    (small : (i : ℕ) → i < members → o.off i + o.comp i < 2 ^ 32) where
  ends_inside : (i : ℕ) → i < members → o.off i + o.comp i ≤ o.file_size
  ends_inside i h = omega (arith, checks i h, small i h)

  next_after : (i : ℕ) → i + 1 < members → o.off i + o.comp i ≤ o.off (i + 1)
  next_after i h =
      let c = checks i (omega arith) in
      omega (arith, c, small i (omega arith), member_end_inner o i h)

  all_after : (i d : ℕ) → i + 1 + d < members → o.off i + o.comp i ≤ o.off (i + 1 + d)
  all_after i zero h = let z : i + 1 + 0 ≡ i + 1 = omega arith in rw z (next_after i (omega arith))
  all_after i (suc d) h =
      let s : i + 1 + d + 1 ≡ i + 1 + suc d = omega arith in
      let n : o.off (i + 1 + d) + o.comp (i + 1 + d) ≤ o.off (i + 1 + suc d) =
        rw s at (next_after (i + 1 + d) (omega arith)) in
      omega (arith, all_after i d (omega arith), n)

  all-Laid : Laid o
  all-Laid = record {
    non_empty = λ i h. (checks i h).non_empty;
    inside = ends_inside;
    ordered = λ i j lt h. (let (d, e) = gap i j lt in rw e at (all_after i d (omega (arith, e))));
  }

handle_first :
    (cd : Cd) (lba size : ℕ) (hdr : Bytes) → (handle_of cd lba size hdr).off 0 ≡ le32 hdr 0
unfolding handle_of
handle_first cd lba size hdr = refl

open_parts :
    (cd : Cd) (granted : Bool) (o : Ovl)
    → open_ovl cd granted ≡ ok o
    → (e : IsoEntry) × (hdr : Bytes) × (checked (handle_of cd e.extent_lba e.size hdr) (le32 hdr 0)
        ≡ ok o)
unfolding open_ovl
open_parts cd granted o h =
    let (e, se, h1) = >>=-eq-ok (or_fail not_found (stat cd ovl_name)) _ h in
    let (u, sg, h2) = >>=-eq-ok (guard granted no_mem) _ h1 in
    let (hdr, sh, h3) =
      >>=-eq-ok (or_fail io (pread cd (u32 (e.extent_lba * sector_size)) zeros 48)) _ h2 in
    (e, hdr, h3)

pub open_ovl-Checked :
    (cd : Cd) (granted : Bool) (o : Ovl)
    → open_ovl cd granted ≡ ok o
    → (i : ℕ) → i < members
    → Checked o i
open_ovl-Checked cd granted o h i lt =
    let (e, hdr, c) = open_parts cd granted o h in
    let made = handle_of cd e.extent_lba e.size hdr in
    let first = handle_first cd e.extent_lba e.size hdr in
    rw (checked_same made o (le32 hdr 0) c) at (
      sane-Checked members made 0 i (rw first (checked-sane made o (le32 hdr 0) c)) (omega arith)
        (omega arith))

-- The handle borrows the image.
pub open_ovl-cd : (cd : Cd) (granted : Bool) (o : Ovl) → open_ovl cd granted ≡ ok o → o.cd ≡ cd
unfolding handle_of
open_ovl-cd cd granted o h =
    let (e, hdr, c) = open_parts cd granted o h in
    sym (
      ap (λ (x : Ovl). x.cd) (checked_same (handle_of cd e.extent_lba e.size hdr) o (le32 hdr 0) c))

-- If gt2_ovl_open succeeds and no member's offset and size add up to 2 ^ 32 or more, then every
-- member has bytes, they lie inside the file, and each member ends before any later one starts.
pub open_ovl-Laid :
    (cd : Cd) (granted : Bool) (o : Ovl)
    → open_ovl cd granted ≡ ok o
    → ((i : ℕ) → i < members → o.off i + o.comp i < 2 ^ 32)
    → Laid o
open_ovl-Laid cd granted o h small = all-Laid o (open_ovl-Checked cd granted o h) small
