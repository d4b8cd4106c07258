-- ===== src/Vol/Pack/Bodies.antt =====
-- The file bodies of gt2_vol_pack: each stands where the new table says.
use gt2_recomp.Prelude.{
  ℕ, zero, suc, ◌+◌, ◌-◌, ◌<◌, ◌≤◌, ◌≡◌, ◌≢◌, refl, sym, ap, ◌∙◌, Option, none, some, List, ok,
  arith, ◌==◌, Bool-cases, inl, inr, >>=-eq-ok, tests, ==→eq, ok-injective,
}
use gt2_recomp.Bytes.{Bytes, copy}
use gt2_recomp.Bytes.Laws.{copy_inside, copy_outside}
use gt2_recomp.Vol.{Vol, read_at}
use gt2_recomp.Vol.Source.{src, FitsImage, read_at-Window}
use gt2_recomp.Vol.Pack.{Replacement, packed_body, data_or_empty, next_for, rest_for, write_bodies}
use gt2_recomp.Vol.Pack.Ascending.{find_rep}
use gt2_recomp.Vol.Pack.Layout.{sized_by, new_size, new_start, Left, Left-next, Left-rest}

-- byte `b` of file `i` after packing, where `o` is its replacement
unfoldable pub byte_by : Vol → ℕ → Option Replacement → ℕ → ℕ
unfolding data_or_empty
byte_by v i none b = src v.backend (v.tbl i + b)
byte_by v i (some r) b = data_or_empty r.data_ptr b

abbrev pub new_byte : Vol → List Replacement → ℕ → ℕ → ℕ
new_byte v reps i b = byte_by v i (find_rep i reps) b

-- `body` holds the `len` bytes that file `i` has after packing
record IsBody (v : Vol) (i : ℕ) (o : Option Replacement) (body : Bytes) (len : ℕ) : Type 0 where
  sized : len ≡ sized_by v.tbl i o
  bytes : (b : ℕ) → b < len → body b ≡ byte_by v i o b

kept_body :
    (v : Vol) (i : ℕ) (body : Bytes) (len : ℕ)
    → v.tbl (i + 1) - v.tbl i ≢ 0
    → packed_body v i none ≡ ok (body, len)
    → (len ≡ v.tbl (i + 1) - v.tbl i) × (read_at v.backend (v.tbl i) len ≡ some body)
unfolding packed_body
kept_body v i body len h e = ground arith

empty_body :
    (v : Vol) (i : ℕ) (body : Bytes) (len : ℕ)
    → v.tbl (i + 1) - v.tbl i ≡ 0
    → packed_body v i none ≡ ok (body, len)
    → len ≡ 0
unfolding packed_body
empty_body v i body len h e = ground arith

packed_body-IsBody :
    (v : Vol) (i : ℕ) (o : Option Replacement) (body : Bytes) (len : ℕ)
    → FitsImage v
    → i < v.data_count
    → packed_body v i o ≡ ok (body, len)
    → IsBody v i o body len
unfolding packed_body byte_by sized_by
packed_body-IsBody v i none body len fits h e = elim (Bool-cases (v.tbl (i + 1) - v.tbl i == 0)) [
  | inl empty ↦
      let z : v.tbl (i + 1) - v.tbl i ≡ 0 = ==→eq _ 0 empty in
      let none_out : len ≡ 0 = empty_body v i body len z e in
      record { sized = none_out ∙ sym z; bytes = λ b lt. absurd (omega arith) }
  | inr full ↦
      let (s, r) = kept_body v i body len (ground arith) e in
      let top = fits.within (i + 1) (omega arith) in
      record { sized = s; bytes = read_at-Window v.backend (v.tbl i) len body (omega arith) r }
]
packed_body-IsBody v i (some r) body len fits h e =
    let q : ◌≡◌ {A = Bytes × ℕ} (data_or_empty r.data_ptr, r.size) (body, len) = ok-injective e in
    record {
      sized = ap (λ (p : Bytes × ℕ). p.1) (sym q);
      bytes = λ b lt. ap (λ (p : Bytes × ℕ). p.0 b) (sym q);
    }

-- The blob after `n` rounds from file `2 + m`.
pub record Written (v : Vol) (reps : List Replacement) (m n : ℕ) (old out : Bytes) : Type 0 where
  pub low : (x : ℕ) → x < new_start v.tbl reps m → out x ≡ old x
  pub body :
      (k b : ℕ)
      → m ≤ k
      → k < m + n
      → b < new_size v.tbl reps (2 + k)
      → out (new_start v.tbl reps k + b) ≡ new_byte v reps (2 + k) b

module _ (v : Vol) (reps : List Replacement) where
  body_now :
      (m n : ℕ) (old out body : Bytes) (len b : ℕ)
      → IsBody v (2 + m) (find_rep (2 + m) reps) body len
      → Written v reps (suc m) n (copy old (new_start v.tbl reps m) body len) out
      → b < new_size v.tbl reps (2 + m)
      → out (new_start v.tbl reps m + b) ≡ new_byte v reps (2 + m) b
  unfolding new_start
  body_now m n old out body len b c w lt =
      w.low (new_start v.tbl reps m + b) (omega arith)
      ∙ copy_inside old body (new_start v.tbl reps m) len b (omega (arith, c.sized))
      ∙ c.bytes b (omega (arith, c.sized))

  Written-round :
      (m n : ℕ) (old out body : Bytes) (len : ℕ)
      → IsBody v (2 + m) (find_rep (2 + m) reps) body len
      → Written v reps (suc m) n (copy old (new_start v.tbl reps m) body len) out
      → Written v reps m (suc n) old out
  unfolding new_start
  Written-round m n old out body len c w = record {
    low =
        λ x h. w.low x (omega arith) ∙ copy_outside old body (new_start v.tbl reps m) len x (inl h);
    body = λ k b h p lt. elim (Bool-cases (k == m)) [
      | inl q ↦
          let e : k ≡ m = omega tests in rw e (body_now m n old out body len b c w (rw e at lt))
      | inr q ↦ w.body k b (ground arith) (omega arith) lt
    ];
  }

  pub write_bodies-Written :
      (n m i pos : ℕ) (rs : List Replacement) (old out : Bytes)
      → FitsImage v
      → i ≡ 2 + m
      → pos ≡ new_start v.tbl reps m
      → i + n ≤ v.data_count
      → Left reps i rs
      → write_bodies n v i pos rs old ≡ ok out
      → Written v reps m n old out
  unfolding write_bodies
  write_bodies-Written zero m i pos rs old out fits ei ep dc l h =
      let q : old ≡ out = ok-injective h in
      record {
        low = λ x lt. ap (λ (f : Bytes). f x) (sym q);
        body = λ k b x y lt. absurd (omega arith);
      }
  write_bodies-Written (suc n) m i pos rs old out fits ei ep dc l h =
      let ((body, len), p, r) = >>=-eq-ok (packed_body v i (next_for i rs)) _ h in
      let c : IsBody v i (find_rep i reps) body len =
        packed_body-IsBody v i (find_rep i reps) body len fits (omega arith)
          (rw (Left-next reps rs i l) at p) in
      let grown : pos + len ≡ new_start v.tbl reps (suc m) =
        rw (c.sized, ep, ei) (unfold new_start in refl) in
      let next : i + 1 ≡ suc i = omega arith in
      Written-round m n old out body len (rw ei at c) (
        rw ep at (
          write_bodies-Written n (suc m) (i + 1) (pos + len) (rest_for i rs) (copy old pos body len)
            out fits (omega arith) grown (omega arith) (rw next (Left-rest reps rs i l)) r))
