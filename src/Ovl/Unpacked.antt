-- ===== src/Ovl/Unpacked.antt =====
-- What gt2_ovl_read_member returns for an intact gzip member.
use gt2_recomp.Prelude.{
  ℕ, zero, suc, ◌+◌, ◌-◌, ◌*◌, ◌^◌, ◌≤◌, ◌<◌, ◌≡◌, refl, sym, ap, ◌∙◌, Bool, true, false, ◌&&◌, not,
  some, List, [], ◌++◌, ok, ◌==◌, leb, arith, inl, inr, length, length-append, if◌then◌else◌,
}
use mathlib.Core.List.{append_assoc, append-nil}
use gt2_recomp.Bytes.{Bytes, u32, zeros}
use gt2_recomp.Cd.{sector_size, pread}
use gt2_recomp.Cd.Pread.{cooked, Readable, stored}
use gt2_recomp.Vol.{Alloc}
use gt2_recomp.Inflate.{Zlib, Decodes}
use gt2_recomp.Ovl.{Ovl, members, first_cap, after, inflate_loop, read_comp, read_member}

abbrev room_of : ℕ → List ℕ → ℕ
room_of cap out = if length out == cap then cap * 2 else cap

abbrev next_of : ℕ → ℕ → List ℕ → ℕ
next_of n cap out = if length out == cap then n + 1 else n

never_refused :
    (full : Bool) (n : ℕ) (alloc : Alloc)
    → ((i : ℕ) → alloc i ≡ true)
    → (full && not (alloc n)) ≡ false
never_refused full n alloc g = rw (g n) (and_no full)
  where
    and_no : (b : Bool) → (b && not true) ≡ false
    and_no true = refl
    and_no false = refl

loop_round :
    (f : ℕ) (z : Zlib) (alloc : Alloc) (n cap : ℕ) (out : List ℕ) (s : z.Stream)
    → ((i : ℕ) → alloc i ≡ true)
    → inflate_loop (suc f) z alloc n cap out s
      ≡ after
          (z.run s (u32 (room_of cap out - length out))).1.0
          (out ++ (z.run s (u32 (room_of cap out - length out))).1.1)
          (inflate_loop f z alloc
            (next_of n cap out)
            (room_of cap out)
            (out ++ (z.run s (u32 (room_of cap out - length out))).1.1)
            (z.run s (u32 (room_of cap out - length out))).0)
unfolding inflate_loop
loop_round f z alloc n cap out s g = rw (never_refused (length out == cap) n alloc g) refl

room_left : (cap : ℕ) (out : List ℕ) → 0 < cap → length out ≤ cap → length out < room_of cap out
room_left cap out p h = ground arith

ended : {xs ys rest : List ℕ} → xs ≡ ys ++ rest → rest ≡ [] → ys ≡ xs
ended {ys = ys} e h = sym (rw (h, append-nil ys) at e)

-- the room is never more than a word: a buffer grows when it is full, by as much as is written
room_small :
    (cap : ℕ) (out : List ℕ)
    → length out < 2 ^ 32
    → cap - length out < 2 ^ 32
    → u32 (room_of cap out - length out) ≡ room_of cap out - length out
room_small cap out p h = ground arith

room_of_small :
    (cap : ℕ) (out : List ℕ)
    → length out < 2 ^ 32
    → cap - length out < 2 ^ 32
    → room_of cap out - length out < 2 ^ 32
room_of_small cap out p h = ground arith

-- the bytes, with their number
abbrev pub delivered : List ℕ → List ℕ × ℕ
delivered whole = (whole, length whole)

inflate_loop-content :
    (f : ℕ) (z : Zlib) (law : Decodes z) (alloc : Alloc) (n cap : ℕ) (out : List ℕ) (s : z.Stream)
    → ((i : ℕ) → alloc i ≡ true)
    → law.IsIntact s
    → law.work s < f
    → 0 < cap
    → length out ≤ cap
    → cap - length out < 2 ^ 32
    → length out + length (law.content s) < 2 ^ 32
    → inflate_loop f z alloc n cap out s ≡ some (ok (delivered (out ++ law.content s)))
inflate_loop-content zero z law alloc n cap out s g i w p h q small = absurd (omega arith)
inflate_loop-content (suc f) z law alloc n cap out s g i w p h q small =
    let room = room_of cap out - length out in
    let gap : length out < room_of cap out = room_left cap out p h in
    let split = law.splits s room i in
    let word : u32 room ≡ room = room_small cap out (omega arith) q in
    let new = (z.run s room).1.1 in
    let parts : length (law.content s) ≡ length new + length (law.content (z.run s room).0) =
      ap length split ∙ length-append new (law.content (z.run s room).0) in
    loop_round f z alloc n cap out s g
    ∙ rw word (elim (law.goes_on s room i (omega (arith, gap))) [
      | inl (e, over) ↦
          let whole : new ≡ law.content s = ended split over in
          let few : length (out ++ law.content s) < 2 ^ 32 =
            omega (arith, length-append out (law.content s), small) in
          let size : u32 (length (out ++ law.content s)) ≡ length (out ++ law.content s) =
            omega (arith, few) in
          rw (e, whole, size) refl
      | inr (e, intact, less) ↦ rw e (
          inflate_loop-content f z law alloc (next_of n cap out) (room_of cap out) (out ++ new)
            (z.run s room).0 g intact (omega arith) (omega arith)
            (omega (arith, law.fits s room i, length-append out new))
            (omega (arith, length-append out new, room_of_small cap out (omega arith) q))
            (omega (arith, length-append out new, parts, small))
          ∙ ap (λ xs. some (ok (delivered xs)))
              (rw split (append_assoc out new (law.content (z.run s room).0))))
    ])

read_comp-pread :
    (o : Ovl) (idx : ℕ) (buf : Bytes)
    → leb members idx ≡ false
    → pread o.cd (u32 (u32 (o.file_lba * sector_size) + o.off idx)) zeros (o.comp idx) ≡ ok buf
    → read_comp o true idx ≡ ok buf
unfolding read_comp
read_comp-pread o idx buf i p = rw (i, p) refl

read_member-opened :
    (fuel : ℕ) (z : Zlib) (o : Ovl) (alloc : Alloc) (idx : ℕ) (buf : Bytes) (s : z.Stream)
    → ((n : ℕ) → alloc n ≡ true)
    → read_comp o true idx ≡ ok buf
    → z.start 31 buf (o.comp idx) ≡ some s
    → read_member fuel z o alloc idx ≡ inflate_loop fuel z alloc 2 first_cap [] s
unfolding read_member
read_member-opened fuel z o alloc idx buf s g r st = rw (g 0, r, g 1, st) refl

-- If a member of the container lies in the first 4 GiB of the image and can be read, and zlib opens
-- any buffer with the member's bytes as an intact stream of a content below 4 GiB, then with memory
-- granted and enough calls of inflate gt2_ovl_read_member returns that content and its size.
pub read_member-content :
    (z : Zlib) (law : Decodes z) (o : Ovl) (alloc : Alloc) (idx : ℕ) (whole : List ℕ)
    → ((n : ℕ) → alloc n ≡ true)
    → length whole < 2 ^ 32
    → idx < members
    → o.file_lba * sector_size + o.off idx + o.comp idx < 2 ^ 32
    → Readable o.cd (o.file_lba * sector_size + o.off idx) (o.comp idx)
    → ((buf : Bytes)
        → ((k : ℕ)
            → k < o.comp idx
            → buf k ≡ cooked o.cd (o.file_lba * sector_size + o.off idx + k))
        → (s : z.Stream) × (z.start 31 buf (o.comp idx) ≡ some s)
          × law.IsIntact s
          × (law.content s ≡ whole))
    → (enough : ℕ) × ((fuel : ℕ)
        → enough ≤ fuel
        → read_member fuel z o alloc idx ≡ some (ok (whole, length whole)))
read_member-content z law o alloc idx whole g few i w r opens =
    let (buf, p, f) = stored o.cd (o.file_lba * sector_size + o.off idx) (o.comp idx) w r in
    let (s, st, intact, c) = opens buf f in
    let place : u32 (u32 (o.file_lba * sector_size) + o.off idx)
        ≡ u32 (o.file_lba * sector_size + o.off idx) =
      omega arith in
    let comp = read_comp-pread o idx buf (ground arith) (rw place p) in
    (
      suc (law.work s),
      λ fuel enough.
          read_member-opened fuel z o alloc idx buf s g comp st
          ∙ inflate_loop-content fuel z law alloc 2 first_cap [] s g intact (omega arith)
              (omega arith) (omega arith) (omega arith) (omega (arith, ap length c, few))
          ∙ ap (λ xs. some (ok (delivered xs))) c,
    )
