-- ===== src/Vol/Walk/Files.antt =====
-- Whole-file reads: gt2_vol_find_path, gt2_vol_read_path, gt2_vol_find and gt2_vol_read.
use gt2_recomp.Prelude.{
  ℕ, zero, suc, ◌+◌, ◌-◌, ◌<◌, ◌≤◌, ◌≡◌, ◌≢◌, refl, Bool, true, false, not, List, [], ◌∷◌, ok, err,
  guard, arith, >>=-eq-ok, guard-eq-ok, some, get_elem?, Bool-cases, inl, inr,
}
use gt2_recomp.Bytes.{Bytes, str_eq}
use gt2_recomp.Bytes.Laws.{str_eq_iff}
use gt2_recomp.Vol.{Vol, is_dir, Name, file_range, find, find_name, read}
use gt2_recomp.Vol.Source.{
  FitsImage, HoldsFile, Present, file_range-total, read_range-HoldsFile, read_range-total,
}
use gt2_recomp.Vol.Walk.{Entry, has_dir, stat_path, find_path, read_path}
use gt2_recomp.Vol.Walk.Paths.{Names, stat_path-iff-Names}

-- The path names a file, and the buffer holds that file, whole.
pub record ReadsFile (v : Vol) (path : List ℕ) (buf : Bytes) (size : ℕ) : Type 0 where
  pub entry : Entry
  pub named : Names v path entry
  pub plain : has_dir entry.flags ≡ false
  pub holds : HoldsFile v entry.next buf size

not-true : (b : Bool) → not b ≡ true → b ≡ false
not-true b h = ground arith

find_path-ok :
    (v : Vol) (path : List ℕ) (range : ℕ × ℕ)
    → find_path v path ≡ ok range
    → (e : Entry) × Names v path e × (has_dir e.flags ≡ false) × (file_range v e.next ≡ ok range)
unfolding find_path
find_path-ok v path range h =
    let (e, s, rest) = >>=-eq-ok (stat_path v path) _ h in
    let (u, g, r) = >>=-eq-ok (guard (not (has_dir e.flags)) is_dir) _ rest in
    (e, (stat_path-iff-Names v path e).0 s, not-true _ (guard-eq-ok _ is_dir g), r)

-- Over an image whose offsets fit 32 bits, what gt2_vol_read_path returns is the whole file that the
-- path names, byte for byte, with its size.
pub read_path-ReadsFile :
    (v : Vol) (path : List ℕ) (granted : Bool) (buf : Bytes) (size : ℕ)
    → FitsImage v
    → read_path v path granted ≡ ok (buf, size)
    → ReadsFile v path buf size
unfolding read_path
read_path-ReadsFile v path granted buf size fits h =
    let (range, f, r) = >>=-eq-ok (find_path v path) _ h in
    let (e, n, d, q) = find_path-ok v path range f in
    record {
      entry = e;
      named = n;
      plain = d;
      holds = read_range-HoldsFile v granted e.next size range buf fits q r;
    }

-- A path that names a plain file with an ordered range that the image holds is read, if memory is
-- granted.
pub read_path-total :
    (v : Vol) (path : List ℕ) (e : Entry)
    → FitsImage v
    → Names v path e
    → has_dir e.flags ≡ false
    → e.next < v.data_count
    → v.tbl e.next ≤ v.tbl (e.next + 1)
    → Present v.backend (v.tbl e.next) (v.tbl (e.next + 1) - v.tbl e.next)
    → (buf : Bytes) × (size : ℕ) × (read_path v path true ≡ ok (buf, size))
unfolding read_path find_path
read_path-total v path e fits n d idx ord p =
    let top = fits.within (e.next + 1) (omega arith) in
    let size = v.tbl (e.next + 1) - v.tbl e.next in
    let (buf, r) = read_range-total v (v.tbl e.next) size (omega arith) p in
    (buf, size, rw ((stat_path-iff-Names v path e).1 n, d, file_range-total v e.next idx ord) r)

-- A path that names a directory is not read.
pub read_path-dir :
    (v : Vol) (path : List ℕ) (granted : Bool) (e : Entry)
    → Names v path e
    → has_dir e.flags ≡ true
    → read_path v path granted ≡ err is_dir
unfolding read_path find_path
read_path-dir v path granted e n d = rw ((stat_path-iff-Names v path e).1 n, d) refl

-- the first record of the flat directory with the name
pub record FirstNamed (ns : List Name) (name : List ℕ) (n : Name) : Type 0 where
  pub pos : ℕ
  pub is_at : get_elem? ns pos ≡ some n
  pub named : n.name ≡ name
  pub first : (j : ℕ) (m : Name) → j < pos → get_elem? ns j ≡ some m → m.name ≢ name

not_before :
    (n : Name) (ns : List Name) (name : List ℕ) (k : ℕ)
    → n.name ≢ name
    → ((j : ℕ) (m : Name) → j < k → get_elem? ns j ≡ some m → m.name ≢ name)
    → (j : ℕ) (m : Name) → j < suc k
    → get_elem? (n ∷ ns) j ≡ some m
    → m.name ≢ name
not_before n ns name k h f zero m lt at = let same : n ≡ m = cc in rw (← same) h
not_before n ns name k h f (suc j) m lt at = f j m (omega arith) at

find_name-FirstNamed :
    (v : Vol) (ns : List Name) (name : List ℕ) (range : ℕ × ℕ)
    → find_name v ns name ≡ ok range
    → (n : Name) × FirstNamed ns name n × (file_range v n.index ≡ ok range)
unfolding find_name
find_name-FirstNamed v [] name range h = cc
find_name-FirstNamed v (n ∷ ns) name range h = elim (Bool-cases (str_eq n.name name)) [
  | inl same ↦ (
    n,
    record {
      pos = 0;
      is_at = refl;
      named = (str_eq_iff n.name name).0 same;
      first = λ j m lt at. elim lt [ ];
    },
    rw same at h,
  )
  | inr differ ↦
      let (k, f, r) = find_name-FirstNamed v ns name range (rw differ at h) in
      (
        k,
        record {
          pos = suc f.pos;
          is_at = f.is_at;
          named = f.named;
          first =
              not_before n ns name f.pos (λ e. cc (differ, (str_eq_iff n.name name).1 e)) f.first;
        },
        r,
      )
]

-- Over an image whose offsets fit 32 bits, what gt2_vol_read returns is the whole file of the first
-- directory record with that name, byte for byte, with its size.
pub read-FirstNamed :
    (v : Vol) (name : List ℕ) (granted : Bool) (buf : Bytes) (size : ℕ)
    → FitsImage v
    → read v name granted ≡ ok (buf, size)
    → (n : Name) × FirstNamed v.names name n × HoldsFile v n.index buf size
unfolding read find
read-FirstNamed v [] granted buf size fits h = cc
read-FirstNamed v (c ∷ cs) granted buf size fits h =
    let (range, f, r) = >>=-eq-ok (find_name v v.names (c ∷ cs)) _ h in
    let (n, first, q) = find_name-FirstNamed v v.names (c ∷ cs) range f in
    (n, first, read_range-HoldsFile v granted n.index size range buf fits q r)
