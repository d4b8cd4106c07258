-- ===== src/Vol/Pack/Reopen.antt =====
-- A packed blob, opened again by gt2_vol_open_mem, reads back as the replaced and the kept files.
use gt2_recomp.Prelude.{
  ℕ, suc, ◌+◌, ◌-◌, ◌*◌, ◌^◌, ◌<◌, ◌≤◌, ◌≡◌, refl, ap, ◌∙◌, true, List, Outcome, ok, ◌>>=◌, arith,
  inl, le→leb,
}
use gt2_recomp.Bytes.{Bytes, le16, le32, u32}
use gt2_recomp.Vol.{
  Vol, VolStatus, Alloc, Backend, blob, open_mem, vol_base, vol_magic, file_range, read_range,
}
use gt2_recomp.Vol.Source.{src, file_range-total, read_range-total, read_range-Window}
use gt2_recomp.Vol.Parsed.{Parsed, Parseable, parse_tables-total, parse_tables-Parsed_room}
use gt2_recomp.Vol.Pack.{Replacement, pack_vol}
use gt2_recomp.Vol.Pack.Layout.{new_size, new_start, new_start_mono}
use gt2_recomp.Vol.Pack.Bodies.{new_byte}
use gt2_recomp.Vol.Pack.Rebuilt.{Rebuilt, Packable}
use gt2_recomp.Vol.Pack.RoundTrip.{pack_vol-Rebuilt}

blob_byte : (b : Backend) (m : Bytes) (size x : ℕ) → b ≡ blob m size → src b x ≡ m x
blob_byte b m size x e = rw e (unfold src in refl)

-- a whole file by its table index, as gt2_vol_read_path reads it
unfoldable pub read_index : Vol → ℕ → Outcome VolStatus (Bytes × ℕ)
read_index v i = do range ← file_range v i; read_range v true range

read_index-range :
    (v : Vol) (i : ℕ) (range res : ℕ × ℕ) (out : Bytes × ℕ)
    → file_range v i ≡ ok range
    → range ≡ res
    → read_range v true res ≡ ok out
    → read_index v i ≡ ok out
unfolding read_index
read_index-range v i range res out f e r = rw (f, e) r

-- file `i` reads as its replacement, or as it was
pub record ReadsNew (v v' : Vol) (reps : List Replacement) (i : ℕ) : Type 0 where
  pub buf : Bytes
  pub reads : read_index v' i ≡ ok (buf, new_size v.tbl reps i)
  pub bytes : (b : ℕ) → b < new_size v.tbl reps i → buf b ≡ new_byte v reps i b

module _ (v : Vol) (reps : List Replacement) (out : Bytes) (size : ℕ) (p : Packable v reps)
    (q : Parsed v.backend v) (r : Rebuilt v reps out size) where
  start-le : (k : ℕ) → k ≤ v.data_count - 3 → new_start v.tbl reps k ≤ size
  start-le k h =
      let e : v.data_count - 3 - k + k ≡ v.data_count - 3 = omega arith in
      omega (
        arith,
        new_start_mono v.tbl reps k (v.data_count - 3 - k),
        r.total,
        ap (new_start v.tbl reps) e,
      )

  table-le : 0x10 + (v.data_count + 1) * 4 ≤ size
  unfolding new_start
  table-le = omega (arith, p.table_first, start-le 0 (omega arith))

  head_byte : (x : ℕ) → x < 0x10 → out x ≡ src v.backend x
  head_byte x h = r.prefix x (omega (arith, p.table_first)) (inl h)

  out_magic : le32 out 0 ≡ vol_magic
  out_magic = omega (
    arith,
    head_byte 0 (omega arith),
    head_byte (0 + 1) (omega arith),
    head_byte (0 + 2) (omega arith),
    head_byte (0 + 3) (omega arith),
    q.magic,
  )

  out_count : le16 out 8 ≡ v.data_count
  out_count =
      omega (arith, head_byte 8 (omega arith), head_byte (8 + 1) (omega arith), q.data_count)

  out_room : vol_base + 0x10 + (le16 (src (blob out size)) 8 + 1) * 4 ≤ 2 ^ 32
  unfolding src
  out_room = omega (arith, out_count, p.table_first, p.fits.within 2 (omega (arith, p.files)))

  out-Parseable : Parseable (blob out size)
  out-Parseable = record {
    head = omega (arith, table-le);
    magic = unfold src in out_magic;
    nonempty = unfold src in (omega (arith, out_count, p.files));
    room = out_room;
    table = unfold src in (omega (arith, out_count, table-le));
  }

  module _ (v' : Vol) (q' : Parsed (blob out size) v') (room : vol_base + size ≤ 2 ^ 32 - 1) where
    count-eq : v'.data_count ≡ v.data_count
    count-eq = q'.data_count ∙ (unfold src in out_count)

    start-eq : (k : ℕ) → k ≤ v.data_count - 3 → v'.tbl (2 + k) ≡ new_start v.tbl reps k
    start-eq k h = q'.tbl (2 + k) (omega (arith, count-eq, p.files)) ∙ (unfold src in (r.start k h))

    next-eq :
        (k : ℕ)
        → k < v.data_count - 3
        → v'.tbl (2 + k + 1) ≡ new_start v.tbl reps k + new_size v.tbl reps (2 + k)
    unfolding new_start
    next-eq k h =
        let e : 2 + k + 1 ≡ 2 + suc k = omega arith in rw e (start-eq (suc k) (omega arith))

    reads_new : (k : ℕ) → k < v.data_count - 3 → ReadsNew v v' reps (2 + k)
    unfolding read_index new_start
    reads_new k h =
        let a = start-eq k (omega arith) in
        let b = next-eq k h in
        let top = start-le (suc k) (omega arith) in
        let size' : v'.tbl (2 + k + 1) - v'.tbl (2 + k) ≡ new_size v.tbl reps (2 + k) =
          omega (arith, a, b) in
        let range = file_range-total v' (2 + k) (omega (arith, count-eq)) (omega (arith, a, b)) in
        let room' : vol_base + v'.tbl (2 + k) + new_size v.tbl reps (2 + k) ≤ 2 ^ 32 - 1 =
          omega (arith, a, top) in
        let (buf, e) =
          read_range-total v' (v'.tbl (2 + k)) (new_size v.tbl reps (2 + k)) room'
            (rw q'.backend (omega (arith, a, top))) in
        record {
          buf = buf;
          reads =
              read_index-range v' (2 + k) _ _ (buf, new_size v.tbl reps (2 + k)) range
                (ap (λ n. (u32 (vol_base + v'.tbl (2 + k)), n)) size') e;
          bytes = λ x lt.
              let place : v'.tbl (2 + k) + x ≡ new_start v.tbl reps k + x = omega (arith, a) in
              read_range-Window v' true (v'.tbl (2 + k)) (new_size v.tbl reps (2 + k))
                (new_size v.tbl reps (2 + k)) buf room' e x lt
              ∙ blob_byte v'.backend out size (v'.tbl (2 + k) + x) q'.backend
              ∙ ap out place
              ∙ r.body k x h lt;
        }

-- Repacking is a round trip. Take an opened volume whose offset table lies before its first file body,
-- and replacements under which the files end within the 32-bit image. If gt2_vol_pack returns a blob,
-- gt2_vol_open_mem opens it when memory is granted, with the same number of files, and each file from
-- index 2 to the last but one reads back, whole, as its replacement if it has one and as it was if not.
pub pack-reopen :
    (v : Vol) (reps : List Replacement) (alloc : Alloc) (out : Bytes) (size : ℕ)
    → Parsed v.backend v
    → Packable v reps
    → vol_base + size ≤ 2 ^ 32 - 1
    → pack_vol v reps alloc ≡ ok (out, size)
    → (v' : Vol) × (open_mem out size (λ n. true) ≡ ok v')
      × (v'.data_count ≡ v.data_count)
      × ((k : ℕ) → k < v.data_count - 3 → ReadsNew v v' reps (2 + k))
unfolding open_mem
pack-reopen v reps alloc out size q p room h =
    let r = pack_vol-Rebuilt v reps alloc out size p h in
    let (v', e) = parse_tables-total (blob out size) (out-Parseable v reps out size p q r) in
    let q' =
      parse_tables-Parsed_room (blob out size) (λ n. true) v' (out_room v reps out size p q r) e in
    let big = le→leb 16 size (omega (arith, table-le v reps out size p q r)) in
    (
      v',
      rw big e,
      count-eq v reps out size p q r v' q' room,
      reads_new v reps out size p q r v' q' room,
    )
