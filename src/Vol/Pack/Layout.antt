-- ===== src/Vol/Pack/Layout.antt =====
-- The new offset table of gt2_vol_pack against the running sum of the new file sizes.
use gt2_recomp.Prelude.{
  ℕ, zero, suc, ◌+◌, ◌-◌, ◌^◌, ◌<◌, ◌≤◌, ◌≡◌, refl, sym, ap, ◌∙◌, Option, none, some, List, ok,
  arith, ◌==◌, Bool-cases, inl, inr, >>=-eq-ok, tests, ok-injective,
}
use gt2_recomp.Bytes.{u32, write}
use gt2_recomp.Vol.Pack.{Replacement, packed_size, next_for, rest_for, relayout}
use gt2_recomp.Vol.Pack.Ascending.{
  find_rep, Ascending, next_for-eq-find_rep, rest_for-Ascending, find_rep-rest_for,
}

-- the size of file `i` after packing, where `o` is its replacement
unfoldable pub sized_by : (ℕ → ℕ) → ℕ → Option Replacement → ℕ
sized_by tbl i none = tbl (i + 1) - tbl i
sized_by tbl i (some r) = r.size

abbrev pub new_size : (ℕ → ℕ) → List Replacement → ℕ → ℕ
new_size tbl reps i = sized_by tbl i (find_rep i reps)

-- where file `2 + m` starts after packing
unfoldable pub new_start : (ℕ → ℕ) → List Replacement → ℕ → ℕ
new_start tbl reps zero = tbl 2
new_start tbl reps (suc m) = new_start tbl reps m + new_size tbl reps (2 + m)

pub new_start_mono :
    (tbl : ℕ → ℕ) (reps : List Replacement) (m n : ℕ)
    → new_start tbl reps m ≤ new_start tbl reps (n + m)
unfolding new_start
new_start_mono tbl reps m zero = let e : 0 + m ≡ m = omega arith in rw e (omega arith)
new_start_mono tbl reps m (suc n) =
    let e : suc n + m ≡ suc (n + m) = omega arith in
    rw e (omega (arith, new_start_mono tbl reps m n))

pub packed_size-ok :
    (tbl : ℕ → ℕ) (i : ℕ) (o : Option Replacement) (size : ℕ)
    → packed_size tbl i o ≡ ok size
    → size ≡ sized_by tbl i o
unfolding packed_size sized_by
packed_size-ok tbl i none size h = ground arith
packed_size-ok tbl i (some r) size h = sym (ok-injective h)

-- `rs` is what is left of the sorted list `reps` at file `i`
pub record Left (reps : List Replacement) (i : ℕ) (rs : List Replacement) : Type 0 where
  pub ascending : Ascending i rs
  pub same : (j : ℕ) → i ≤ j → find_rep j rs ≡ find_rep j reps

pub Left-next :
    (reps rs : List Replacement) (i : ℕ) → Left reps i rs → next_for i rs ≡ find_rep i reps
Left-next reps rs i l = next_for-eq-find_rep i rs l.ascending ∙ l.same i (omega arith)

pub Left-rest :
    (reps rs : List Replacement) (i : ℕ) → Left reps i rs → Left reps (suc i) (rest_for i rs)
Left-rest reps rs i l = record {
  ascending = rest_for-Ascending i rs l.ascending;
  same = λ j h. find_rep-rest_for i j rs h ∙ l.same j (omega arith);
}

-- The table and cursor after `n` rounds from file `2 + m`.
pub record Laid (tbl : ℕ → ℕ) (reps : List Replacement) (m n : ℕ) (old out : ℕ → ℕ) (cursor : ℕ)
    : Type 0 where
  pub end : cursor ≡ new_start tbl reps (m + n)
  pub new : (k : ℕ) → m ≤ k → k < m + n → out (2 + k) ≡ new_start tbl reps k
  pub low : (j : ℕ) → j < 2 + m → out j ≡ old j
  pub high : (j : ℕ) → 2 + m + n ≤ j → out j ≡ old j

module _ (tbl : ℕ → ℕ) (reps : List Replacement) where
  Laid-round :
      (m n : ℕ) (old out : ℕ → ℕ) (cursor : ℕ)
      → Laid tbl reps (suc m) n (write old (2 + m) (new_start tbl reps m)) out cursor
      → Laid tbl reps m (suc n) old out cursor
  Laid-round m n old out cursor l = record {
    end = let e : m + suc n ≡ suc m + n = omega arith in rw e l.end;
    new = λ k h p. elim (Bool-cases (k == m)) [
      | inl q ↦ let e : k ≡ m = omega tests in rw e (ground (arith, l.low (2 + m)))
      | inr q ↦ l.new k (ground arith) (omega arith)
    ];
    low = λ j h. ground (arith, l.low j);
    high = λ j h. ground (arith, l.high j);
  }

  pub relayout-Laid :
      (n m i cursor : ℕ) (rs : List Replacement) (old out : ℕ → ℕ) (c : ℕ)
      → i ≡ 2 + m
      → cursor ≡ new_start tbl reps m
      → Left reps i rs
      → new_start tbl reps (m + n) < 2 ^ 32
      → relayout n tbl i cursor rs old ≡ ok (out, c)
      → Laid tbl reps m n old out c
  unfolding relayout
  relayout-Laid zero m i cursor rs old out c ei ec l w h =
      let q : ◌≡◌ {A = (ℕ → ℕ) × ℕ} (old, cursor) (out, c) = ok-injective h in
      let a : m + 0 ≡ m = omega arith in
      record {
        end = rw a (ap (λ (p : (ℕ → ℕ) × ℕ). p.1) (sym q) ∙ ec);
        new = λ k x y. absurd (omega arith);
        low = λ j x. ap (λ (p : (ℕ → ℕ) × ℕ). p.0 j) (sym q);
        high = λ j x. ap (λ (p : (ℕ → ℕ) × ℕ). p.0 j) (sym q);
      }
  relayout-Laid (suc n) m i cursor rs old out c ei ec l w h =
      let (size, p, r) = >>=-eq-ok (packed_size tbl i (next_for i rs)) _ h in
      let s : size ≡ new_size tbl reps i =
        packed_size-ok tbl i (find_rep i reps) size (rw (Left-next reps rs i l) at p) in
      let grown : cursor + size ≡ new_start tbl reps (suc m) =
        rw (s, ec, ei) (unfold new_start in refl) in
      let e : m + suc n ≡ n + suc m = omega arith in
      let room : new_start tbl reps (suc m) < 2 ^ 32 =
        omega (arith, new_start_mono tbl reps (suc m) n, ap (new_start tbl reps) e) in
      Laid-round m n old out c (
        rw (ei, ec) at
          (relayout-Laid n (suc m) (i + 1) (u32 (cursor + size)) (rest_for i rs)
            (write old i cursor) out c (omega arith) (omega arith)
            (let k : i + 1 ≡ suc i = omega arith in rw k (Left-rest reps rs i l))
            (let k : suc m + n ≡ m + suc n = omega arith in rw k w) r))
