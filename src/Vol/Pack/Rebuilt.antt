-- ===== src/Vol/Pack/Rebuilt.antt =====
-- The blob that gt2_vol_pack builds, read back through its own offset table.
use gt2_recomp.Prelude.{
  ℕ, ◌+◌, ◌-◌, ◌*◌, ◌/◌, ◌%◌, ◌^◌, ◌<◌, ◌≤◌, ◌≡◌, ap, ◌∙◌, List, arith, ◌==◌, Bool-cases, inl, inr,
  ◌⊎◌, tests,
}
use gt2_recomp.Bytes.{Bytes, le32, le_byte}
use gt2_recomp.Bytes.Laws.{copy_inside, copy_outside, le32-le_byte, le_byte-lt}
use gt2_recomp.Vol.{Vol}
use gt2_recomp.Vol.Source.{src, FitsImage}
use gt2_recomp.Vol.Pack.{Replacement, stamp, new_table}
use gt2_recomp.Vol.Pack.Layout.{new_size, new_start, Laid, new_start_mono}
use gt2_recomp.Vol.Pack.Bodies.{new_byte, Written}

-- word `j` of the offset table that the blob carries
abbrev pub blob_tbl : Bytes → ℕ → ℕ
blob_tbl blob j = le32 blob (0x10 + j * 4)

-- What a packed blob holds, for the opened volume `v` and the replacements `reps`.
pub record Rebuilt (v : Vol) (reps : List Replacement) (blob : Bytes) (size : ℕ) : Type 0 where
  pub total : size ≡ new_start v.tbl reps (v.data_count - 3)
  pub start : (k : ℕ) → k ≤ v.data_count - 3 → blob_tbl blob (2 + k) ≡ new_start v.tbl reps k
  pub marker : blob_tbl blob v.data_count ≡ v.tbl v.data_count
  pub carriers : (j : ℕ) → j < 2 → blob_tbl blob j ≡ v.tbl j
  pub table_bytes : (j c : ℕ) → j ≤ v.data_count → c < 4 → blob (0x10 + j * 4 + c) < 256
  pub body :
      (k b : ℕ)
      → k < v.data_count - 3
      → b < new_size v.tbl reps (2 + k)
      → blob (new_start v.tbl reps k + b) ≡ new_byte v reps (2 + k) b
  pub prefix :
      (x : ℕ)
      → x < v.tbl 2
      → (x < 0x10) ⊎ (0x10 + (v.data_count + 1) * 4 ≤ x)
      → blob x ≡ src v.backend x

-- The offset table lies before the first file body, and the new sizes add up below 2 ^ 32.
pub record Packable (v : Vol) (reps : List Replacement) : Type 0 where
  pub fits : FitsImage v
  pub files : 4 ≤ v.data_count
  pub table_first : 0x10 + (v.data_count + 1) * 4 ≤ v.tbl 2
  pub no_wrap : new_start v.tbl reps (v.data_count - 3) < 2 ^ 32

stamp_byte :
    (blob : Bytes) (ntbl : ℕ → ℕ) (count j c : ℕ)
    → j < count
    → c < 4
    → stamp blob ntbl count (0x10 + (j * 4 + c)) ≡ le_byte (ntbl j) c
unfolding stamp
stamp_byte blob ntbl count j c h lt =
    let q : (j * 4 + c) / 4 ≡ j = omega arith in
    let m : (j * 4 + c) % 4 ≡ c = omega arith in
    copy_inside blob (λ k. le_byte (ntbl (k / 4)) (k % 4)) 0x10 (count * 4) (j * 4 + c)
      (omega arith)
    ∙ cc (q, m)

-- a blob that keeps the stamped bytes carries the new table
table_word :
    (blob out : Bytes) (ntbl : ℕ → ℕ) (count j : ℕ)
    → j < count
    → ntbl j < 2 ^ 32
    → ((x : ℕ) → x < 0x10 + count * 4 → out x ≡ stamp blob ntbl count x)
    → blob_tbl out j ≡ ntbl j
table_word blob out ntbl count j h small keep =
    le32-le_byte out (0x10 + j * 4) (ntbl j) small (λ c lt.
      let e : 0x10 + j * 4 + c ≡ 0x10 + (j * 4 + c) = omega arith in
      keep (0x10 + j * 4 + c) (omega arith) ∙ (rw e (stamp_byte blob ntbl count j c h lt)))

module _ (v : Vol) (reps : List Replacement) (laid : ℕ → ℕ) (cursor : ℕ) (prefix out : Bytes)
    (p : Packable v reps) (l : Laid v.tbl reps 0 (v.data_count - 3) v.tbl laid cursor)
    (r : (k : ℕ) → k < v.tbl 2 → prefix k ≡ src v.backend (0 + k))
    (w : Written v reps 0
      (v.data_count - 3)
      (stamp prefix (new_table v laid cursor) (v.data_count + 1))
      out) where
  kept : (x : ℕ) → x < v.tbl 2 → out x ≡ stamp prefix (new_table v laid cursor) (v.data_count + 1) x
  kept x h = w.low x (unfold new_start in h)

  word :
      (j : ℕ)
      → j ≤ v.data_count
      → new_table v laid cursor j < 2 ^ 32
      → blob_tbl out j ≡ new_table v laid cursor j
  word j h small =
      table_word prefix out (new_table v laid cursor) (v.data_count + 1) j (omega arith) small
        (λ x lt. kept x (omega (arith, p.table_first)))

  new_table-start :
      (k : ℕ) → k ≤ v.data_count - 3 → new_table v laid cursor (2 + k) ≡ new_start v.tbl reps k
  unfolding new_table
  new_table-start k h = elim (Bool-cases (k == v.data_count - 3)) [
    | inl q ↦
        let e : k ≡ v.data_count - 3 = omega tests in
        let z : 0 + (v.data_count - 3) ≡ v.data_count - 3 = omega arith in
        rw e (ground (arith, p.files, l.end, ap (new_start v.tbl reps) z))
    | inr q ↦ ground (arith, p.files, l.new k)
  ]

  new_table-marker : new_table v laid cursor v.data_count ≡ v.tbl v.data_count
  unfolding new_table
  new_table-marker = ground arith

  new_table-carrier : (j : ℕ) → j < 2 → new_table v laid cursor j ≡ v.tbl j
  unfolding new_table
  new_table-carrier j h = ground (arith, l.low j, p.files)

  start-lt : (k : ℕ) → k ≤ v.data_count - 3 → new_start v.tbl reps k < 2 ^ 32
  start-lt k h =
      let e : v.data_count - 3 - k + k ≡ v.data_count - 3 = omega arith in
      omega (
        arith,
        new_start_mono v.tbl reps k (v.data_count - 3 - k),
        p.no_wrap,
        ap (new_start v.tbl reps) e,
      )

  prefix_kept :
      (x : ℕ)
      → x < v.tbl 2
      → (x < 0x10) ⊎ (0x10 + (v.data_count + 1) * 4 ≤ x)
      → out x ≡ src v.backend x
  unfolding stamp
  prefix_kept x h side =
      let e : 0 + x ≡ x = omega arith in
      kept x h
      ∙ copy_outside prefix (λ k. le_byte (new_table v laid cursor (k / 4)) (k % 4)) 0x10
          ((v.data_count + 1) * 4) x side
      ∙ rw e at (r x h)

  table_byte : (j c : ℕ) → j ≤ v.data_count → c < 4 → out (0x10 + j * 4 + c) < 256
  table_byte j c h lt =
      let e : 0x10 + j * 4 + c ≡ 0x10 + (j * 4 + c) = omega arith in
      let stamped : stamp prefix (new_table v laid cursor) (v.data_count + 1) (0x10 + j * 4 + c)
          ≡ le_byte (new_table v laid cursor j) c =
        rw e
          (stamp_byte prefix (new_table v laid cursor) (v.data_count + 1) j c (omega arith) lt) in
      rw (kept (0x10 + j * 4 + c) (omega (arith, p.table_first)) ∙ stamped)
        (le_byte-lt (new_table v laid cursor j) c)

  pub filled : Rebuilt v reps out cursor
  filled = record {
    total = let z : 0 + (v.data_count - 3) ≡ v.data_count - 3 = omega arith in rw z at l.end;
    start = λ k h.
        word (2 + k) (omega (arith, p.files)) (rw (new_table-start k h) (start-lt k h))
        ∙ new_table-start k h;
    marker =
        word v.data_count (omega arith)
          (rw new_table-marker (omega (arith, p.fits.within v.data_count (omega arith))))
        ∙ new_table-marker;
    carriers = λ j h.
        word j (omega (arith, p.files))
          (rw (new_table-carrier j h) (omega (arith, p.fits.within j (omega (arith, p.files)))))
        ∙ new_table-carrier j h;
    table_bytes = table_byte;
    body = λ k b h lt. w.body k b (omega arith) (omega arith) lt;
    prefix = prefix_kept;
  }
