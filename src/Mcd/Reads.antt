-- ===== src/Mcd/Reads.antt =====
-- gt2_mcd_read as a whole: what it returns, and when it returns it.
use gt2_recomp.Prelude.{
  ℕ, zero, suc, ◌+◌, ◌*◌, ◌/◌, ◌%◌, ◌^◌, ◌<◌, ◌≤◌, ◌≡◌, refl, sym, ap, ◌∙◌, Bool, true, false, not,
  ◌||◌, List, [], ◌∷◌, ok, ◌>>=◌, ◌>>◌, guard, arith, ◌==◌, ltb, leb, >>=-eq-ok, guard-eq-ok,
  ok-injective, length,
}
use gt2_recomp.Bytes.{Bytes, zeros, le32}
use gt2_recomp.Mcd.{
  inval, not_found, no_mem, DirEntry, st_first, dir_entries, frame_at, entry_at, dir, read_blocks,
  read,
}
use gt2_recomp.Mcd.Chains.{Chain, Holds, read_blocks-Copied, read_blocks-total}

-- the number of blocks that a size takes, as the u32 expression gives it
abbrev pub blocks_of : ℕ → ℕ
blocks_of size = (size + 8191) % 2 ^ 32 / 8192

-- the file of entry `i` is a chain from block `i + 1`, and the buffer holds its blocks
pub record ReadsChain (img : Bytes) (i : ℕ) (buf : Bytes) (size : ℕ) : Type 0 where
  pub entry : i < 15
  pub state : le32 img ((i + 1) * 128) ≡ st_first
  pub sized : size ≡ le32 img ((i + 1) * 128 + 4)
  pub blocks : List ℕ
  pub chain : Chain img (i + 1) blocks
  pub number : length blocks ≡ blocks_of size
  pub holds : Holds img blocks 0 buf

dir-ok :
    (img : Bytes) (i : ℕ) (d : DirEntry)
    → dir img i ≡ ok d
    → (i < 15) × (d.state ≡ le32 img ((i + 1) * 128)) × (d.size ≡ le32 img ((i + 1) * 128 + 4))
unfolding dir entry_at
dir-ok img i d h =
    let f : frame_at 0 (1 + i) ≡ (i + 1) * 128 = omega arith in
    (ground arith, ground (arith, rw f at h), ground (arith, rw f at h))

after_dir :
    (img : Bytes) (i size n : ℕ) (granted : Bool) (out : Bytes × ℕ)
    → (do
      guard (not (n == 0 || ltb 15 n)) inval
      guard granted no_mem
      buf ← read_blocks n img (i + 1) 0 zeros
      ok (buf, size))
      ≡ ok out
    → (0 < n) × (read_blocks n img (i + 1) 0 zeros ≡ ok out.0) × (size ≡ out.1)
after_dir img i size n granted out h =
    let (u, g, r) = >>=-eq-ok (guard (not (n == 0 || ltb 15 n)) inval) _ h in
    let (w, m, s) = >>=-eq-ok (guard granted no_mem) _ r in
    let (buf, b, e) = >>=-eq-ok (read_blocks n img (i + 1) 0 zeros) (λ buf. ok (buf, size)) s in
    let pair : (buf, size) ≡ out = ok-injective e in
    let g' = guard-eq-ok _ inval g in
    let buf_same : buf ≡ out.0 = ap (λ (p : Bytes × ℕ). p.0) pair in
    (ground (arith, g'), rw buf_same at b, ap (λ (p : Bytes × ℕ). p.1) pair)

read_inverted :
    (img : Bytes) (i size n : ℕ) (buf : Bytes) (d : DirEntry)
    → dir img i ≡ ok d
    → d.state ≡ st_first
    → d.size ≡ size
    → n ≡ blocks_of size
    → 0 < n
    → read_blocks n img (i + 1) 0 zeros ≡ ok buf
    → ReadsChain img i buf size
read_inverted img i size zero buf d e st sz nb pos h = absurd (omega arith)
read_inverted img i size (suc n) buf d e st sz nb pos h =
    let (lt, s, z) = dir-ok img i d e in
    let c = read_blocks-Copied n img (i + 1) 0 zeros buf h in
    record {
      entry = lt;
      state = sym s ∙ st;
      sized = sym sz ∙ z;
      blocks = c.blocks;
      chain = c.chain;
      number = c.number ∙ nb;
      holds = c.holds;
    }

-- What gt2_mcd_read returns is the file of a first-block entry: as many blocks as its size takes, in the
-- order of its links, each link that is followed not the end mark and each block a data block.
pub read-ReadsChain :
    (img : Bytes) (i : ℕ) (granted : Bool) (buf : Bytes) (size : ℕ)
    → read img i granted ≡ ok (buf, size)
    → ReadsChain img i buf size
unfolding read
read-ReadsChain img i granted buf size h =
    let (d, e, r) = >>=-eq-ok (dir img i) _ h in
    let (u, g, s) = >>=-eq-ok (guard (d.state == st_first) not_found) _ r in
    let first : d.state ≡ st_first =
      ground (arith, guard-eq-ok (d.state == st_first) not_found g) in
    let (pos, copied, same) = after_dir img i d.size (blocks_of d.size) granted (buf, size) s in
    read_inverted img i size (blocks_of d.size) buf d e first same (rw same refl) pos copied

pub Chain-pos : (img : Bytes) (blk : ℕ) (bs : List ℕ) → Chain img blk bs → 0 < length bs
Chain-pos img blk (x ∷ bs) c = omega arith
Chain-pos img blk [] c = elim c [ ]

-- An entry in use as a first block, with a chain as long as its size takes and of at most 15 blocks, is
-- read when memory is granted.
pub read-total :
    (img : Bytes) (i : ℕ) (bs : List ℕ)
    → i < 15
    → le32 img ((i + 1) * 128) ≡ st_first
    → Chain img (i + 1) bs
    → length bs ≡ blocks_of (le32 img ((i + 1) * 128 + 4))
    → length bs ≤ 15
    → (buf : Bytes) × (read img i true ≡ ok (buf, le32 img ((i + 1) * 128 + 4)))
unfolding read dir entry_at
read-total img i bs lt st c n few =
    let (out, r) = read_blocks-total img (i + 1) 0 zeros bs c in
    let inside : leb dir_entries i ≡ false = ground arith in
    let f : frame_at 0 (1 + i) ≡ (i + 1) * 128 = omega arith in
    let pos = Chain-pos img (i + 1) bs c in
    let fits : (length bs == 0 || ltb 15 (length bs)) ≡ false = ground arith in
    (out, rw (inside, f, st, ← n, fits, r) refl)
