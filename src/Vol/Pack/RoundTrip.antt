-- ===== src/Vol/Pack/RoundTrip.antt =====
-- The theorem about gt2_vol_pack: what it returns, and what a handle opened on that blob reads.
use gt2_recomp.Prelude.{
  ℕ, zero, suc, ◌+◌, ◌-◌, ◌≡◌, ◌≢◌, refl, ◌∙◌, true, none, some, List, [], ◌∷◌, ok, arith,
  Option-cases, Outcome-cases, inl, inr,
}
use gt2_recomp.Bytes.{Bytes}
use gt2_recomp.Vol.{Vol, read_at, Alloc}
use gt2_recomp.Vol.Source.{read_at-Window}
use gt2_recomp.Vol.Pack.{
  Replacement, relayout, write_bodies, stamp, new_table, fill_blob, rebuild, replacements_ok, sort,
  no_duplicate, pack_vol,
}
use gt2_recomp.Vol.Pack.Ascending.{Ascending, checked-Ascending, find_rep-sort}
use gt2_recomp.Vol.Pack.Layout.{new_start, Left, Laid, relayout-Laid}
use gt2_recomp.Vol.Pack.Bodies.{write_bodies-Written}
use gt2_recomp.Vol.Pack.Rebuilt.{Rebuilt, Packable, filled}

module _ (v : Vol) (sorted : List Replacement) (alloc : Alloc) (laid : ℕ → ℕ) (cursor : ℕ)
    (out : Bytes) (size : ℕ) where
  fill_blob-prefix :
      read_at v.backend 0 (v.tbl 2) ≡ none
      → fill_blob v sorted alloc (laid, cursor) ≢ ok (out, size)
  unfolding fill_blob
  fill_blob-prefix e h = ground arith

  fill_blob-bodies :
      (prefix : Bytes)
      → read_at v.backend 0 (v.tbl 2) ≡ some prefix
      → fill_blob v sorted alloc (laid, cursor) ≡ ok (out, size)
      → (write_bodies
            (v.data_count - 3)
            v
            2
            (v.tbl 2)
            sorted
            (stamp prefix (new_table v laid cursor) (v.data_count + 1))
          ≡ ok out)
        × (cursor ≡ size)
  unfolding fill_blob
  fill_blob-bodies prefix e h = ground (arith, e)

whole_list : (reps : List Replacement) → Ascending 2 reps → Left reps 2 reps
whole_list reps a = record { ascending = a; same = λ j h. refl }

fill_blob-Rebuilt :
    (v : Vol) (reps : List Replacement) (alloc : Alloc) (laid : ℕ → ℕ) (cursor : ℕ) (out : Bytes)
    (size : ℕ)
    → Packable v reps
    → Ascending 2 reps
    → Laid v.tbl reps 0 (v.data_count - 3) v.tbl laid cursor
    → fill_blob v reps alloc (laid, cursor) ≡ ok (out, size)
    → Rebuilt v reps out size
fill_blob-Rebuilt v reps alloc laid cursor out size p a l h =
    elim (Option-cases (read_at v.backend 0 (v.tbl 2))) [
      | inl e ↦ absurd (fill_blob-prefix v reps alloc laid cursor out size e h)
      | inr (prefix, e) ↦
          let (bodies, same) = fill_blob-bodies v reps alloc laid cursor out size prefix e h in
          let start : v.tbl 2 ≡ new_start v.tbl reps 0 = unfold new_start in refl in
          rw same at (
            filled v reps laid cursor prefix out p l
              (read_at-Window v.backend 0 (v.tbl 2) prefix
                (omega (arith, p.fits.within 2 (omega (arith, p.files)))) e)
              (write_bodies-Written v reps (v.data_count - 3) 0 2 (v.tbl 2) reps _ out p.fits
                (omega arith) start (omega (arith, p.files)) (whole_list reps a) bodies))
    ]

pub rebuild-laid :
    (v : Vol) (reps : List Replacement) (alloc : Alloc) (out : Bytes) (size : ℕ)
    → rebuild v reps alloc ≡ ok (out, size)
    → (laid : (ℕ → ℕ) × ℕ) × (relayout (v.data_count - 3) v.tbl 2 (v.tbl 2) reps v.tbl ≡ ok laid)
      × (fill_blob v reps alloc laid ≡ ok (out, size))
unfolding rebuild
rebuild-laid v reps alloc out size h =
    elim (Outcome-cases (relayout (v.data_count - 3) v.tbl 2 (v.tbl 2) reps v.tbl)) [
      | inl (laid, e) ↦ (laid, e, ground (arith, e))
      | inr (x, e) ↦ absurd (ground (arith, e))
    ]

rebuild-Rebuilt :
    (v : Vol) (reps : List Replacement) (alloc : Alloc) (out : Bytes) (size : ℕ)
    → Packable v reps
    → Ascending 2 reps
    → rebuild v reps alloc ≡ ok (out, size)
    → Rebuilt v reps out size
rebuild-Rebuilt v reps alloc out size p a h =
    let ((laid, cursor), e, f) = rebuild-laid v reps alloc out size h in
    let start : v.tbl 2 ≡ new_start v.tbl reps 0 = unfold new_start in refl in
    let z : 0 + (v.data_count - 3) ≡ v.data_count - 3 = omega arith in
    fill_blob-Rebuilt v reps alloc laid cursor out size p a
      (relayout-Laid v.tbl reps (v.data_count - 3) 0 2 (v.tbl 2) reps v.tbl laid cursor
        (omega arith) start (whole_list reps a) (rw z p.no_wrap) e)
      f

new_start-sort :
    (tbl : ℕ → ℕ) (reps : List Replacement) (k : ℕ)
    → new_start tbl (sort reps) k ≡ new_start tbl reps k
unfolding new_start
new_start-sort tbl reps zero = refl
new_start-sort tbl reps (suc k) = rw (new_start-sort tbl reps k, find_rep-sort (2 + k) reps) refl

Rebuilt-sort :
    (v : Vol) (reps : List Replacement) (out : Bytes) (size : ℕ)
    → Rebuilt v (sort reps) out size
    → Rebuilt v reps out size
Rebuilt-sort v reps out size r = record {
  total = r.total ∙ new_start-sort v.tbl reps (v.data_count - 3);
  start = λ k h. r.start k h ∙ new_start-sort v.tbl reps k;
  marker = r.marker;
  table_bytes = r.table_bytes;
  carriers = r.carriers;
  body = λ k b h lt.
      rw (new_start-sort v.tbl reps k, find_rep-sort (2 + k) reps) at
        (r.body k b h (rw (find_rep-sort (2 + k) reps) lt));
  prefix = r.prefix;
}

Packable-sort : (v : Vol) (reps : List Replacement) → Packable v reps → Packable v (sort reps)
Packable-sort v reps p = record {
  fits = p.fits;
  files = p.files;
  table_first = p.table_first;
  no_wrap = rw (new_start-sort v.tbl reps (v.data_count - 3)) p.no_wrap;
}

checked :
    (v : Vol) (r : Replacement) (rs : List Replacement) (alloc : Alloc) (out : Bytes × ℕ)
    → pack_vol v (r ∷ rs) alloc ≡ ok out
    → (replacements_ok (v.data_count - 2) (r ∷ rs) ≡ true)
      × (no_duplicate (sort (r ∷ rs)) ≡ true)
      × (rebuild v (sort (r ∷ rs)) alloc ≡ ok out)
unfolding pack_vol
checked v r rs alloc out h = ground arith

pub unchecked :
    (v : Vol) (alloc : Alloc) (out : Bytes × ℕ)
    → pack_vol v [] alloc ≡ ok out
    → rebuild v [] alloc ≡ ok out
unfolding pack_vol
unchecked v alloc out h = ground arith

-- What gt2_vol_pack returns, where the volume has at least 4 offsets that fit the 32-bit image, the offset
-- table lies before the first file body and the new sizes add up below 2 ^ 32: its table, its bodies, its
-- prefix and its size, as Rebuilt says.
pub pack_vol-Rebuilt :
    (v : Vol) (reps : List Replacement) (alloc : Alloc) (out : Bytes) (size : ℕ)
    → Packable v reps
    → pack_vol v reps alloc ≡ ok (out, size)
    → Rebuilt v reps out size
pack_vol-Rebuilt v [] alloc out size p h =
    rebuild-Rebuilt v [] alloc out size p tt (unchecked v alloc (out, size) h)
pack_vol-Rebuilt v (r ∷ rs) alloc out size p h =
    let (valid, apart, built) = checked v r rs alloc (out, size) h in
    Rebuilt-sort v (r ∷ rs) out size (
      rebuild-Rebuilt v (sort (r ∷ rs)) alloc out size (Packable-sort v (r ∷ rs) p)
        (checked-Ascending (v.data_count - 2) (r ∷ rs) valid apart) built)
