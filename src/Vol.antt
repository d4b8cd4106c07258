-- ===== src/Vol.antt =====
-- The GTFS volume reader, decomp/src/vol/vol.c: the handle, its two backends, the table parser and
-- the reads by table index. Paths are in Vol/Walk.antt, the repacker in Vol/Pack.antt.
pub mod Source
pub mod Parsed
pub mod Walk
pub mod Pack
use gt2_recomp.Prelude.{
  ℕ, zero, suc, ◌+◌, ◌-◌, ◌*◌, ◌/◌, ◌%◌, Bool, true, false, ◌&&◌, ◌||◌, Option, none, some, List,
  [], ◌∷◌, Outcome, ok, err, ◌>>=◌, ◌>>◌, guard, or_err, ltb, leb, ◌==◌, if◌then◌else◌, not, length,
}
use gt2_recomp.Bytes.{Bytes, zeros, copy, le16, le32, u32, c_string, str_eq}
use gt2_recomp.Cd.{Cd, CdStatus, File, open_cd, pread as cd_pread}

-- gt2_vol_status_t without its OK
pub data VolStatus : Type 0 where
  io bad_magic truncated no_mem not_found inval is_dir : VolStatus

-- the image, or a borrowed blob with its size
pub data Backend : Type 0 where
  image : Cd → Backend
  blob : Bytes → ℕ → Backend

-- gt2_vol_name_t; a name is the C string in its field
pub record Name : Type 0 where
  pub name : List ℕ
  pub index : ℕ
  pub hash : ℕ

-- gt2_vol_slot_t
pub record Slot : Type 0 where
  pub date : ℕ
  pub next : ℕ
  pub flags : ℕ
  pub name : List ℕ

-- struct gt2_vol. `tbl` has data_count + 1 entries; name_count and slot_count are lengths.
pub record Vol : Type 0 where
  pub backend : Backend
  pub data_count : ℕ
  pub entry_count : ℕ
  pub tbl : ℕ → ℕ
  pub names : List Name
  pub slots : List Slot

-- whether the n-th allocation of a call succeeds
abbrev pub Alloc : Type 0
Alloc = ℕ → Bool

abbrev pub vol_base : ℕ
vol_base = 473 * 2048

abbrev pub vol_magic : ℕ
vol_magic = 0x53465447

abbrev pub dir_off : ℕ
dir_off = 0xBE7C

abbrev pub slot_off : ℕ
slot_off = 0xB800

abbrev pub name_max : ℕ
name_max = 25

abbrev pub flat_name_max : ℕ
flat_name_max = 21

abbrev dir_cap : ℕ
dir_cap = 0x20000

-- read_at: the bytes read, at offset 0 of a fresh buffer, or none for -1
unfoldable pub read_at : Backend → ℕ → ℕ → Option Bytes
read_at (image cd) off len = elim (cd_pread cd (u32 (vol_base + off)) zeros len) [
  | ok buf ↦ some buf
  | err e ↦ none
]
read_at (blob m size) off len =
    if ltb size (off + len) then none else some (copy zeros 0 (λ k. m (off + k)) len)

unfoldable pub all_zero : ℕ → Bytes → Bool
all_zero zero m = true
all_zero (suc n) m = m n == 0 && all_zero n m

unfoldable pub name_of : Bytes → Name
name_of rec = record { name = c_string flat_name_max rec 11; index = le16 rec 8; hash = le32 rec 4 }

-- a padding alias: no name, or an index past the table
unfoldable pub is_padding : ℕ → Bytes → Bool
is_padding data_count rec = rec 11 == 0 || ltb data_count (le16 rec 8)

-- the name directory, `n` records at most from record `i` on
unfoldable pub parse_names : ℕ → Backend → ℕ → ℕ → List Name
unfolding all_zero name_of is_padding
parse_names zero b data_count i = []
parse_names (suc n) b data_count i = elim (read_at b (dir_off + i * 32) 32) [
  | none ↦ []
  | some rec ↦
      let rest = parse_names n b data_count (i + 1) in
      if all_zero 32 rec then [] else if is_padding data_count rec then rest else name_of rec ∷ rest
]

unfoldable pub slot_of : Bytes → Slot
slot_of rec = record {
  date = le32 rec 0;
  next = le16 rec 4;
  flags = rec 6;
  name = c_string name_max rec 7;
}

-- the entry table, `n` slots from slot `i` on; a short image keeps what parsed
unfoldable pub parse_slots : ℕ → Backend → ℕ → List Slot
unfolding slot_of
parse_slots zero b i = []
parse_slots (suc n) b i = elim (read_at b (slot_off + i * 32) 32) [
  | none ↦ []
  | some rec ↦ slot_of rec ∷ parse_slots n b (i + 1)
]

unfoldable pub handle_of : Backend → Bytes → Bytes → Vol
handle_of b hdr table = record {
  backend = b;
  data_count = le16 hdr 8;
  entry_count = le16 hdr 10;
  tbl = λ i. le32 table (i * 4);
  names = parse_names dir_cap b (le16 hdr 8) 0;
  slots = parse_slots (le16 hdr 10) b 0;
}

-- parse_tables after the header is read
unfoldable pub parse_body : Backend → Alloc → Bytes → Outcome VolStatus Vol
parse_body b alloc hdr = do
  guard (le32 hdr 0 == vol_magic) bad_magic
  guard (not (le16 hdr 8 == 0)) truncated
  guard (alloc 0) no_mem
  table ← or_err truncated (read_at b 0x10 ((le16 hdr 8 + 1) * 4))
  guard (alloc 1) no_mem
  guard (alloc 2) no_mem
  ok (handle_of b hdr table)

-- parse_tables; its allocations are the table (0), the names (1) and the slots (2)
unfoldable pub parse_tables : Backend → Alloc → Outcome VolStatus Vol
unfolding parse_body handle_of
parse_tables b alloc = do hdr ← or_err io (read_at b 0 16); parse_body b alloc hdr

-- gt2_vol_open after the image is opened
abbrev pub open_image : Alloc → Outcome CdStatus Cd → Outcome VolStatus Vol
open_image alloc (err e) = err io
open_image alloc (ok cd) = do guard (alloc 4) no_mem; parse_tables (image cd) alloc

-- gt2_vol_open: allocation 3 is the cd handle, 4 the volume handle
unfoldable pub open_vol : Option File → Alloc → Outcome VolStatus Vol
open_vol f alloc = open_image alloc (open_cd f (alloc 3))

-- gt2_vol_open_mem
unfoldable pub open_mem : Bytes → ℕ → Alloc → Outcome VolStatus Vol
open_mem m size alloc = do
  guard (leb 16 size) inval
  guard (alloc 4) no_mem
  parse_tables (blob m size) alloc

-- gt2_vol_file_range: the image offset and the size
unfoldable pub file_range : Vol → ℕ → Outcome VolStatus (ℕ × ℕ)
file_range v index = do
  guard (ltb index v.data_count) inval
  guard (leb (v.tbl index) (v.tbl (index + 1))) truncated
  ok (u32 (vol_base + v.tbl index), v.tbl (index + 1) - v.tbl index)

find_name : Vol → List Name → List ℕ → Outcome VolStatus (ℕ × ℕ)
find_name v [] name = err not_found
find_name v (n ∷ ns) name = if str_eq n.name name then file_range v n.index else find_name v ns name

-- gt2_vol_find
unfoldable pub find : Vol → List ℕ → Outcome VolStatus (ℕ × ℕ)
unfolding find_name
find v [] = err inval
find v (c ∷ cs) = find_name v v.names (c ∷ cs)

-- read_abs
unfoldable pub read_abs : Vol → ℕ → ℕ → Option Bytes
read_abs v abs_off len =
    if ltb abs_off vol_base then none else read_at v.backend (abs_off - vol_base) len

-- the tail of gt2_vol_read and gt2_vol_read_path: the whole range in a fresh buffer, with its size
unfoldable pub read_range : Vol → Bool → ℕ × ℕ → Outcome VolStatus (Bytes × ℕ)
read_range v granted (off, size) = do
  guard granted no_mem
  buf ← (if size == 0 then ok zeros else or_err io (read_abs v off size))
  ok (buf, size)

-- gt2_vol_read
unfoldable pub read : Vol → List ℕ → Bool → Outcome VolStatus (Bytes × ℕ)
unfolding find read_range
read v name granted = do range ← find v name; read_range v granted range

-- gt2_vol_tbl_entry
unfoldable pub tbl_entry : Vol → ℕ → Outcome VolStatus ℕ
tbl_entry v i = if ltb v.data_count i then err inval else ok (v.tbl i)

-- gt2_vol_pread
unfoldable pub pread : Vol → ℕ → ℕ → Outcome VolStatus Bytes
unfolding read_abs
pread v abs_off len = if len == 0 then ok zeros else or_err io (read_abs v abs_off len)
