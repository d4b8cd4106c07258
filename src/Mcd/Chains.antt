-- ===== src/Mcd/Chains.antt =====
-- What gt2_mcd_read returns: the blocks of a chain, in order.
use gt2_recomp.Prelude.{
  ℕ, zero, suc, ◌+◌, ◌*◌, ◌-◌, ◌<◌, ◌≤◌, ◌≡◌, ◌≢◌, refl, ap, ◌∙◌, true, false, not, ◌||◌, some,
  List, [], ◌∷◌, ok, guard, arith, ◌==◌, ltb, leb, >>=-eq-ok, guard-eq-ok, ok-injective, length,
  get_elem?, inl,
}
use gt2_recomp.Bytes.{Bytes, copy, le16}
use gt2_recomp.Bytes.Laws.{copy_inside, copy_outside}
use gt2_recomp.Mcd.{inval, dir_entries, frame_at, entry_at, dir, next_block, read_blocks}

-- the link in the directory frame of a block
abbrev pub link : Bytes → ℕ → ℕ
link img blk = le16 img (blk * 128 + 8)

-- The blocks of a chain from block `blk` on: each is a data block, and the link of each but the last is
-- not the end mark and leads to the next.
pub data Chain (img : Bytes) : ℕ → List ℕ → Type 0 where
  one : {blk : ℕ} → 1 ≤ blk → blk ≤ 15 → Chain img blk (blk ∷ [])
  more :
      {blk : ℕ} {bs : List ℕ}
      → 1 ≤ blk
      → blk ≤ 15
      → link img blk ≢ 0xFFFF
      → Chain img (link img blk + 1) bs
      → Chain img blk (blk ∷ bs)

-- `out` holds the blocks one after the other from block `b` of the buffer on
abbrev pub Holds : Bytes → List ℕ → ℕ → Bytes → Type 0
Holds img bs b out =
    (j blk k : ℕ)
    → get_elem? bs j ≡ some blk
    → k < 8192
    → out ((b + j) * 8192 + k) ≡ img (blk * 8192 + k)

in_range : (blk : ℕ) → not (ltb blk 1 || ltb 15 blk) ≡ true → (1 ≤ blk) × (blk ≤ 15)
in_range blk h = (ground arith, ground arith)

pub dir_of_block :
    (img : Bytes) (blk : ℕ) → 1 ≤ blk → blk ≤ 15 → dir img (blk - 1) ≡ ok (entry_at img (blk * 128))
unfolding dir
dir_of_block img blk lo hi =
    let e : leb dir_entries (blk - 1) ≡ false = ground arith in
    let f : frame_at 0 (1 + (blk - 1)) ≡ blk * 128 = omega arith in rw (e, f) refl

next_block-ok :
    (img : Bytes) (blk nx : ℕ)
    → 1 ≤ blk
    → blk ≤ 15
    → next_block img blk ≡ ok nx
    → (link img blk ≢ 0xFFFF) × (nx ≡ link img blk + 1)
unfolding next_block entry_at
next_block-ok img blk nx lo hi h =
    let h' = rw (dir_of_block img blk lo hi) at h in
    ((λ e. absurd (ground (arith, e, h'))), ground (arith, h'))

pub record Copied (img : Bytes) (n blk b : ℕ) (buf out : Bytes) : Type 0 where
  pub blocks : List ℕ
  pub chain : Chain img blk blocks
  pub number : length blocks ≡ n
  pub holds : Holds img blocks b out
  pub kept : (x : ℕ) → x < b * 8192 → out x ≡ buf x

abbrev pub with_block : Bytes → ℕ → ℕ → Bytes → Bytes
with_block img blk b buf = copy buf (b * 8192) (λ k. img (blk * 8192 + k)) 8192

Copied-one :
    (img : Bytes) (blk b : ℕ) (buf : Bytes)
    → 1 ≤ blk
    → blk ≤ 15
    → Copied img 1 blk b buf (with_block img blk b buf)
Copied-one img blk b buf lo hi = record {
  blocks = blk ∷ [];
  chain = one lo hi;
  number = refl;
  holds = held;
  kept = λ x h. copy_outside buf (λ k. img (blk * 8192 + k)) (b * 8192) 8192 x (inl h);
}
  where
    held : Holds img (blk ∷ []) b (with_block img blk b buf)
    held zero c k at lt =
        let same : blk ≡ c = cc in
        let z : (b + 0) * 8192 + k ≡ b * 8192 + k = omega arith in
        rw (z, ← same) (copy_inside buf (λ k. img (blk * 8192 + k)) (b * 8192) 8192 k lt)
    held (suc j) c k at lt = cc

Copied-more :
    (img : Bytes) (n blk b : ℕ) (buf out : Bytes)
    → 1 ≤ blk
    → blk ≤ 15
    → link img blk ≢ 0xFFFF
    → Copied img n (link img blk + 1) (b + 1) (with_block img blk b buf) out
    → Copied img (suc n) blk b buf out
Copied-more img n blk b buf out lo hi goes r = record {
  blocks = blk ∷ r.blocks;
  chain = more lo hi goes r.chain;
  number = ap suc r.number;
  holds = held;
  kept = λ x h.
      r.kept x (omega arith)
      ∙ copy_outside buf (λ k. img (blk * 8192 + k)) (b * 8192) 8192 x (inl h);
}
  where
    held : Holds img (blk ∷ r.blocks) b out
    held zero c k at lt =
        let same : blk ≡ c = cc in
        let z : (b + 0) * 8192 + k ≡ b * 8192 + k = omega arith in
        rw (z, ← same)
          (r.kept (b * 8192 + k) (omega arith)
            ∙ copy_inside buf (λ k. img (blk * 8192 + k)) (b * 8192) 8192 k lt)
    held (suc j) c k at lt =
        let z : (b + suc j) * 8192 + k ≡ (b + 1 + j) * 8192 + k = omega arith in
        rw z (r.holds j c k at lt)

pub read_blocks-Copied :
    (n : ℕ) (img : Bytes) (blk b : ℕ) (buf out : Bytes)
    → read_blocks (suc n) img blk b buf ≡ ok out
    → Copied img (suc n) blk b buf out
unfolding read_blocks
read_blocks-Copied zero img blk b buf out h =
    let (u, g, r) =
      >>=-eq-ok (guard (not (ltb blk 1 || ltb 15 blk)) inval) (λ u. ok (with_block img blk b buf))
        h in
    let (lo, hi) = in_range blk (guard-eq-ok _ inval g) in
    rw (← ok-injective r) (Copied-one img blk b buf lo hi)
read_blocks-Copied (suc n) img blk b buf out h =
    let (u, g, r) = >>=-eq-ok (guard (not (ltb blk 1 || ltb 15 blk)) inval) _ h in
    let (lo, hi) = in_range blk (guard-eq-ok _ inval g) in
    let (nx, link_ok, s) =
      >>=-eq-ok (next_block img blk)
        (λ nx. read_blocks (suc n) img nx (b + 1) (with_block img blk b buf)) r in
    let (goes, e) = next_block-ok img blk nx lo hi link_ok in
    Copied-more img (suc n) blk b buf out lo hi goes (
      read_blocks-Copied n img (link img blk + 1) (b + 1) (with_block img blk b buf) out
        (rw e at s))

next_block-total :
    (img : Bytes) (blk : ℕ)
    → 1 ≤ blk
    → blk ≤ 15
    → link img blk ≢ 0xFFFF
    → next_block img blk ≡ ok (link img blk + 1)
unfolding next_block entry_at
next_block-total img blk lo hi goes =
    let e : (link img blk == 0xFFFF) ≡ false = ground (arith, goes) in
    rw (dir_of_block img blk lo hi, e) refl

-- a chain is read as far as it goes
pub read_blocks-total :
    (img : Bytes) (blk b : ℕ) (buf : Bytes) (bs : List ℕ)
    → Chain img blk bs
    → (out : Bytes) × (read_blocks (length bs) img blk b buf ≡ ok out)
unfolding read_blocks
read_blocks-total img blk b buf [] c = elim c [ ]
read_blocks-total img blk b buf (x ∷ []) (one lo hi) =
    let e : (ltb blk 1 || ltb 15 blk) ≡ false = ground arith in
    (with_block img blk b buf, rw e refl)
read_blocks-total img blk b buf (x ∷ []) (more lo hi goes c) = elim c [ ]
read_blocks-total img blk b buf (x ∷ y ∷ ys) (more lo hi goes c) =
    let e : (ltb blk 1 || ltb 15 blk) ≡ false = ground arith in
    let (out, r) =
      read_blocks-total img (link img blk + 1) (b + 1) (with_block img blk b buf) (y ∷ ys) c in
    (out, rw (e, next_block-total img blk lo hi goes) r)
