-- ===== src/Vol/Pack/Identity.antt =====
-- Packing with no replacement gives back the extent.
use gt2_recomp.Prelude.{
  ℕ, zero, suc, ◌+◌, ◌-◌, ◌*◌, ◌/◌, ◌%◌, ◌<◌, ◌≤◌, ◌≡◌, sym, ap, ◌∙◌, [], ok, arith, ltb,
  Bool-cases, inl, inr, tests, >>=-eq-ok, ◌==◌, ==→eq, ==→ne, ltb→ge, ltb→lt,
}
use gt2_recomp.Bytes.{Bytes, u32, write}
use gt2_recomp.Bytes.Laws.{IsByte, le32-injective}
use gt2_recomp.Vol.{Vol, Alloc}
use gt2_recomp.Vol.Source.{src}
use gt2_recomp.Vol.Parsed.{Parsed}
use gt2_recomp.Vol.Pack.{packed_size, next_for, relayout, pack_vol}
use gt2_recomp.Vol.Pack.Ascending.{find_rep}
use gt2_recomp.Vol.Pack.Layout.{sized_by, new_start}
use gt2_recomp.Vol.Pack.Bodies.{byte_by}
use gt2_recomp.Vol.Pack.Rebuilt.{Rebuilt, Packable, blob_tbl}
use gt2_recomp.Vol.Pack.RoundTrip.{rebuild-laid, unchecked, pack_vol-Rebuilt}

kept_ordered :
    (tbl : ℕ → ℕ) (i size : ℕ) → packed_size tbl i (next_for i []) ≡ ok size → tbl i ≤ tbl (i + 1)
unfolding packed_size next_for
kept_ordered tbl i size h = ground arith

relayout-step :
    (n : ℕ) (tbl : ℕ → ℕ) (i cursor : ℕ) (old : ℕ → ℕ) (out : (ℕ → ℕ) × ℕ)
    → relayout (suc n) tbl i cursor [] old ≡ ok out
    → (tbl i ≤ tbl (i + 1)) × (c : ℕ) × (next : ℕ → ℕ) × (relayout n tbl (i + 1) c [] next ≡ ok out)
unfolding relayout
relayout-step n tbl i cursor old out h =
    let (size, p, r) = >>=-eq-ok (packed_size tbl i (next_for i [])) _ h in
    (kept_ordered tbl i size p, u32 (cursor + size), write old i cursor, r)

relayout-ordered :
    (n : ℕ) (tbl : ℕ → ℕ) (i cursor : ℕ) (old : ℕ → ℕ) (out : (ℕ → ℕ) × ℕ)
    → relayout n tbl i cursor [] old ≡ ok out
    → (k : ℕ) → k < n
    → tbl (i + k) ≤ tbl (i + k + 1)
relayout-ordered zero tbl i cursor old out h k lt = elim lt [ ]
relayout-ordered (suc n) tbl i cursor old out h zero lt =
    let z : i + 0 ≡ i = omega arith in rw z (relayout-step n tbl i cursor old out h).0
relayout-ordered (suc n) tbl i cursor old out h (suc k) lt =
    let (o, c, next, r) = relayout-step n tbl i cursor old out h in
    let e : i + suc k ≡ i + 1 + k = omega arith in
    rw e (relayout-ordered n tbl (i + 1) c next out r k (omega arith))

new_start-same :
    (tbl : ℕ → ℕ) (n : ℕ)
    → ((k : ℕ) → k < n → tbl (2 + k) ≤ tbl (2 + k + 1))
    → (k : ℕ) → k ≤ n
    → new_start tbl [] k ≡ tbl (2 + k)
unfolding new_start find_rep sized_by
new_start-same tbl n o zero h = ap tbl (omega arith)
new_start-same tbl n o (suc k) h =
    let e : 2 + suc k ≡ 2 + k + 1 = omega arith in
    rw e (omega (arith, new_start-same tbl n o k (omega arith), o k (omega arith)))

-- the file that a byte of the extent belongs to
locate :
    (start : ℕ → ℕ) (n x : ℕ)
    → start 0 ≤ x
    → x < start n
    → (k : ℕ) × (k < n) × (start k ≤ x) × (x < start (suc k))
locate start zero x lo hi = absurd (omega arith)
locate start (suc n) x lo hi = elim (Bool-cases (ltb x (start n))) [
  | inl e ↦ let (k, h, a, b) = locate start n x lo (ltb→lt x (start n) e) in (k, omega arith, a, b)
  | inr e ↦ (n, omega arith, ltb→ge x (start n) e, hi)
]

module _ (v : Vol) (out : Bytes) (size : ℕ) (p : Packable v []) (q : Parsed v.backend v)
    (bytes : IsByte (src v.backend)) (r : Rebuilt v [] out size)
    (o : (k : ℕ) → k < v.data_count - 3 → v.tbl (2 + k) ≤ v.tbl (2 + k + 1)) where
  same_start : (k : ℕ) → k ≤ v.data_count - 3 → new_start v.tbl [] k ≡ v.tbl (2 + k)
  same_start = new_start-same v.tbl (v.data_count - 3) o

  word_same : (j : ℕ) → j ≤ v.data_count → blob_tbl out j ≡ v.tbl j
  word_same j h = elim (Bool-cases (ltb j 2)) [
    | inl low ↦ r.carriers j (ltb→lt j 2 low)
    | inr high ↦ elim (Bool-cases (j == v.data_count)) [
      | inl last ↦ let e : j ≡ v.data_count = ==→eq j v.data_count last in rw e r.marker
      | inr inside ↦
          let k : ℕ = j - 2 in
          let e : 2 + k ≡ j = omega tests in
          let le : k ≤ v.data_count - 3 = omega (tests, ==→ne j v.data_count inside) in
          rw e at (r.start k le ∙ same_start k le)
    ]
  ]

  table_same :
      (j c : ℕ)
      → j ≤ v.data_count
      → c < 4
      → out (0x10 + j * 4 + c) ≡ src v.backend (0x10 + j * 4 + c)
  table_same j c h lt =
      le32-injective out (src v.backend) (0x10 + j * 4) (λ d l. r.table_bytes j d h l)
        (λ d l. bytes.small (0x10 + j * 4 + d)) (word_same j h ∙ q.tbl j h) c lt

  file_same :
      (k x : ℕ)
      → k < v.data_count - 3
      → new_start v.tbl [] k ≤ x
      → x < new_start v.tbl [] (suc k)
      → out x ≡ src v.backend x
  unfolding new_start find_rep sized_by byte_by
  file_same k x h a b =
      let e : new_start v.tbl [] k + (x - new_start v.tbl [] k) ≡ x = omega arith in
      let f : v.tbl (2 + k) + (x - new_start v.tbl [] k) ≡ x =
        omega (arith, same_start k (omega arith)) in
      sym (ap out e) ∙ r.body k (x - new_start v.tbl [] k) h (omega arith) ∙ ap (src v.backend) f

  body_same : (x : ℕ) → v.tbl 2 ≤ x → x < size → out x ≡ src v.backend x
  body_same x lo hi =
      let (k, h, a, b) =
        locate (new_start v.tbl []) (v.data_count - 3) x (omega (arith, same_start 0 (omega arith)))
          (omega (arith, r.total)) in
      file_same k x h a b

  prefix_same : (x : ℕ) → x < v.tbl 2 → out x ≡ src v.backend x
  prefix_same x h = elim (Bool-cases (ltb x 0x10)) [
    | inl low ↦ r.prefix x h (inl (ltb→lt x 0x10 low))
    | inr high ↦ elim (Bool-cases (ltb x (0x10 + (v.data_count + 1) * 4))) [
      | inl table ↦
          let j : ℕ = (x - 0x10) / 4 in
          let c : ℕ = (x - 0x10) % 4 in
          let e : 0x10 + j * 4 + c ≡ x = omega tests in
          rw e at (table_same j c (omega tests) (omega arith))
      | inr past ↦ r.prefix x h (inr (ltb→ge x (0x10 + (v.data_count + 1) * 4) past))
    ]
  ]

  all_same : (x : ℕ) → x < size → out x ≡ src v.backend x
  all_same x h = elim (Bool-cases (ltb x (v.tbl 2))) [
    | inl low ↦ prefix_same x (ltb→lt x (v.tbl 2) low)
    | inr high ↦ body_same x (ltb→ge x (v.tbl 2) high) h
  ]

-- Packed with no replacement, a volume of bytes of at least 4 offsets that fit the 32-bit image, whose
-- offset table lies before its first file body, comes back unchanged: the blob ends where the last file does, and every byte before is the volume's.
pub pack-identity :
    (v : Vol) (alloc : Alloc) (out : Bytes) (size : ℕ)
    → Parsed v.backend v
    → IsByte (src v.backend)
    → Packable v []
    → pack_vol v [] alloc ≡ ok (out, size)
    → (size ≡ v.tbl (v.data_count - 1)) × ((x : ℕ) → x < size → out x ≡ src v.backend x)
pack-identity v alloc out size q bytes p h =
    let r = pack_vol-Rebuilt v [] alloc out size p h in
    let (laid, e, f) = rebuild-laid v [] alloc out size (unchecked v alloc (out, size) h) in
    let o = relayout-ordered (v.data_count - 3) v.tbl 2 (v.tbl 2) v.tbl laid e in
    let last : 2 + (v.data_count - 3) ≡ v.data_count - 1 = omega (arith, p.files) in
    (
      rw last at
          (r.total ∙ new_start-same v.tbl (v.data_count - 3) o (v.data_count - 3) (omega arith)),
      all_same v out size p q bytes r o,
    )
