-- ===== src/Vol/Pack.antt =====
-- The repacker gt2_vol_pack of decomp/src/vol/vol.c.
pub mod Ascending
pub mod Layout
pub mod Bodies
pub mod Rebuilt
pub mod RoundTrip
pub mod Reopen
pub mod Identity
use gt2_recomp.Prelude.{
  ℕ, zero, suc, ◌+◌, ◌-◌, ◌*◌, ◌/◌, ◌%◌, Bool, true, false, ◌&&◌, ◌||◌, Option, none, some, List,
  [], ◌∷◌, Outcome, ok, err, ◌>>=◌, ◌>>◌, guard, or_err, ltb, leb, ◌==◌, if◌then◌else◌, not,
}
use gt2_recomp.Bytes.{Bytes, zeros, copy, write, le32, u32, le_byte}
use gt2_recomp.Cd.{File}
use gt2_recomp.Vol.{Vol, VolStatus, truncated, inval, no_mem, io, Alloc, open_vol, read_at}

-- gt2_vol_replacement_t; `none` is a NULL data pointer
pub record Replacement : Type 0 where
  pub index : ℕ
  pub data_ptr : Option Bytes
  pub size : ℕ

abbrev pub pack_max_file : ℕ
pack_max_file = 0x40000000

is_null : Option Bytes → Bool
is_null none = true
is_null (some d) = false

-- one round of the validation loop
unfoldable pub replacement_ok : ℕ → Replacement → Bool
unfolding is_null
replacement_ok last_valid r = not (
    ltb r.index 2
    || ltb last_valid r.index
    || (ltb 0 r.size && is_null r.data_ptr)
    || ltb pack_max_file r.size)

unfoldable pub replacements_ok : ℕ → List Replacement → Bool
unfolding replacement_ok
replacements_ok last_valid [] = true
replacements_ok last_valid (r ∷ rs) = replacement_ok last_valid r && replacements_ok last_valid rs

insert : Replacement → List Replacement → List Replacement
insert r [] = r ∷ []
insert r (s ∷ ss) = if leb r.index s.index then r ∷ s ∷ ss else s ∷ insert r ss

-- qsort by rep_index_cmp
unfoldable pub sort : List Replacement → List Replacement
unfolding insert
sort [] = []
sort (r ∷ rs) = insert r (sort rs)

-- no two neighbours share an index
unfoldable pub no_duplicate : List Replacement → Bool
no_duplicate [] = true
no_duplicate (r ∷ []) = true
no_duplicate (r ∷ s ∷ rest) = not (r.index == s.index) && no_duplicate (s ∷ rest)

-- `ri < rep_count && sorted[ri].index == i`, where the list is sorted[ri..]
unfoldable pub next_for : ℕ → List Replacement → Option Replacement
next_for i [] = none
next_for i (r ∷ rs) = if r.index == i then some r else none

-- sorted[ri..] after file `i`
unfoldable pub rest_for : ℕ → List Replacement → List Replacement
rest_for i [] = []
rest_for i (r ∷ rs) = if r.index == i then rs else r ∷ rs

-- by how much the cursor moves past file `i`
unfoldable pub packed_size : (ℕ → ℕ) → ℕ → Option Replacement → Outcome VolStatus ℕ
packed_size tbl i (some r) = ok r.size
packed_size tbl i none =
    if ltb (tbl (i + 1)) (tbl i) then err truncated else ok (tbl (i + 1) - tbl i)

-- The loop that lays out the new offset table, `n` rounds from file `i`: the table and the cursor.
unfoldable pub relayout :
    ℕ → (ℕ → ℕ) → ℕ → ℕ → List Replacement → (ℕ → ℕ) → Outcome VolStatus ((ℕ → ℕ) × ℕ)
unfolding packed_size next_for rest_for
relayout zero tbl i cursor reps ntbl = ok (ntbl, cursor)
relayout (suc n) tbl i cursor reps ntbl = do
  size ← packed_size tbl i (next_for i reps)
  relayout n tbl (i + 1) (u32 (cursor + size)) (rest_for i reps) (write ntbl i cursor)

data_or_empty : Option Bytes → Bytes
data_or_empty none = zeros
data_or_empty (some d) = d

-- the bytes that go out for file `i`, with their number
unfoldable pub packed_body : Vol → ℕ → Option Replacement → Outcome VolStatus (Bytes × ℕ)
unfolding data_or_empty
packed_body v i (some r) = ok (data_or_empty r.data_ptr, r.size)
packed_body v i none =
    let len = v.tbl (i + 1) - v.tbl i in
    if len == 0
    then ok (zeros, 0)
    else (do body ← or_err io (read_at v.backend (v.tbl i) len); ok (body, len))

-- The loop that writes the bodies, `n` rounds from file `i`, with `dst` at `blob + pos`.
unfoldable pub write_bodies : ℕ → Vol → ℕ → ℕ → List Replacement → Bytes → Outcome VolStatus Bytes
unfolding packed_body next_for rest_for
write_bodies zero v i pos reps blob = ok blob
write_bodies (suc n) v i pos reps blob = do
  body ← packed_body v i (next_for i reps)
  write_bodies n v (i + 1) (pos + body.1) (rest_for i reps) (copy blob pos body.0 body.1)

-- memcpy(blob + 0x10, ntbl, count * 4)
unfoldable pub stamp : Bytes → (ℕ → ℕ) → ℕ → Bytes
stamp blob ntbl count = copy blob 0x10 (λ k. le_byte (ntbl (k / 4)) (k % 4)) (count * 4)

-- the spot check of the last table word
unfoldable pub marker_ok : ℕ → (ℕ → ℕ) → Bytes → Bool
marker_ok dc tbl blob = ltb (dc + 1) 32 || le32 blob (0x10 + dc * 4) == tbl dc

-- the table with the end of the last file and the old end marker
unfoldable pub new_table : Vol → (ℕ → ℕ) → ℕ → ℕ → ℕ
new_table v laid cursor =
    write (write laid (v.data_count - 1) cursor) v.data_count (v.tbl v.data_count)

-- gt2_vol_pack from the blob's allocation (7) on, with the laid-out table and the cursor
unfoldable pub fill_blob :
    Vol → List Replacement → Alloc → (ℕ → ℕ) × ℕ → Outcome VolStatus (Bytes × ℕ)
unfolding new_table write_bodies stamp marker_ok
fill_blob v sorted alloc (laid, cursor) = do
  guard (alloc 7) no_mem
  prefix ← or_err io (read_at v.backend 0 (v.tbl 2))
  let stamped = stamp prefix (new_table v laid cursor) (v.data_count + 1)
  guard (marker_ok v.data_count v.tbl stamped) inval
  blob ← write_bodies (v.data_count - 3) v 2 (v.tbl 2) sorted stamped
  ok (blob, cursor)

-- gt2_vol_pack from the checked, sorted replacements on: the blob and its size. Allocation 6 is the
-- new table.
unfoldable pub rebuild : Vol → List Replacement → Alloc → Outcome VolStatus (Bytes × ℕ)
unfolding relayout fill_blob
rebuild v sorted alloc = do
  guard (alloc 6) no_mem
  laid ← relayout (v.data_count - 3) v.tbl 2 (v.tbl 2) sorted v.tbl
  fill_blob v sorted alloc laid

-- gt2_vol_pack on the opened volume. Allocation 5 is the sorted copy, made if there are replacements.
unfoldable pub pack_vol : Vol → List Replacement → Alloc → Outcome VolStatus (Bytes × ℕ)
pack_vol v [] alloc = do guard (leb 4 v.data_count) truncated; rebuild v [] alloc
pack_vol v (r ∷ rs) alloc = do
  guard (leb 4 v.data_count) truncated
  guard (alloc 5) no_mem
  guard (replacements_ok (v.data_count - 2) (r ∷ rs)) inval
  guard (no_duplicate (sort (r ∷ rs))) inval
  rebuild v (sort (r ∷ rs)) alloc

-- gt2_vol_pack
unfoldable pub pack : Option File → List Replacement → Alloc → Outcome VolStatus (Bytes × ℕ)
unfolding pack_vol
pack file reps alloc = do v ← open_vol file alloc; pack_vol v reps alloc
