-- ===== src/Iso.antt =====
-- Files of the disc's ISO 9660 root directory: decomp/src/iso/iso.c.
pub mod Records
pub mod Listed
pub mod Stat
pub mod Files
use gt2_recomp.Prelude.{
  ℕ, zero, suc, ◌+◌, ◌-◌, ◌*◌, ◌/◌, ◌%◌, Bool, true, false, ◌&&◌, ◌||◌, Option, none, some, List,
  [], ◌∷◌, Outcome, ok, err, ◌>>=◌, ◌>>◌, guard, or_fail, ltb, leb, ◌==◌, if◌then◌else◌, length,
}
use gt2_recomp.Bytes.{Bytes, zeros, le32, u32}
use gt2_recomp.Cd.{Cd, sector_size, read_sector, pread}

-- gt2_iso_status_t without its OK
pub data IsoStatus : Type 0 where
  io no_mem not_found inval is_dir : IsoStatus

-- gt2_iso_entry_t; the length of the name is namelen
pub record IsoEntry : Type 0 where
  pub extent_lba : ℕ
  pub size : ℕ
  pub flags : ℕ
  pub name : List ℕ

abbrev pub pvd_lba : ℕ
pvd_lba = 16

abbrev pub root_off : ℕ
root_off = 156

abbrev pub max_name : ℕ
max_name = 255

-- a byte as the matcher compares it
unfoldable pub upper : ℕ → ℕ
upper a = if leb b'a' a && leb a b'z' then a - 32 else a

same_ci : Bytes → ℕ → List ℕ → Bool
unfolding upper
same_ci m o [] = true
same_ci m o (b ∷ bs) = upper (m o) == upper b && same_ci m (o + 1) bs

-- name_equal_ci, the record's name at `m + o`
unfoldable pub name_equal_ci : Bytes → ℕ → ℕ → List ℕ → Bool
unfolding same_ci
name_equal_ci m o reclen want = length want == reclen && same_ci m o want

unfoldable pub root_dir : Cd → Outcome IsoStatus (ℕ × ℕ)
root_dir cd = do
  pvd ← or_fail io (read_sector cd pvd_lba)
  guard (pvd 1 == b'C' && pvd 2 == b'D' && pvd 3 == b'0' && pvd 4 == b'0' && pvd 5 == b'1') io
  ok (le32 pvd (root_off + 2), le32 pvd (root_off + 10))

-- memcpy of `n` bytes at `m + o`
unfoldable pub bytes_at : ℕ → Bytes → ℕ → List ℕ
bytes_at zero m o = []
bytes_at (suc n) m o = m o ∷ bytes_at n m (o + 1)

unfoldable pub entry_at : Bytes → ℕ → IsoEntry
unfolding bytes_at
entry_at sec off = record {
  extent_lba = le32 sec (off + 2);
  size = le32 sec (off + 10);
  flags = sec (off + 25);
  name = bytes_at (sec (off + 32)) sec (off + 33);
}

-- the test on the record at `off` that ends the search
unfoldable pub is_hit : Bytes → List ℕ → ℕ → Bool
unfolding name_equal_ci
is_hit sec path off =
    ltb 0 (sec (off + 32))
    && leb (off + 33 + sec (off + 32)) (off + sec off)
    && name_equal_ci sec (off + 33) (sec (off + 32)) path

-- The records of one sector from `off` on. A record takes a byte at least, so as many rounds as the
-- sector has bytes are enough.
unfoldable pub scan_sector : ℕ → Bytes → List ℕ → ℕ → Outcome IsoStatus (Option IsoEntry)
unfolding is_hit entry_at
scan_sector zero sec path off = ok none
scan_sector (suc fuel) sec path off =
    let rest = scan_sector fuel sec path (off + sec off) in
    if leb sector_size off || sec off == 0
    then ok none
    else if ltb sector_size (off + sec off) || ltb sector_size (off + 33)
    then err io
    else if is_hit sec path off
    then ok (some (entry_at sec off))
    else rest

-- The sectors of the directory from `cur` on, `left` bytes of it to go.
unfoldable pub scan_dir : ℕ → Cd → List ℕ → ℕ → ℕ → Outcome IsoStatus IsoEntry
scan_dir zero cd path cur left = err not_found
scan_dir (suc fuel) cd path cur left =
    let next = scan_dir fuel cd path (u32 (cur + 1)) (left - sector_size) in
    if left == 0 then err not_found else (do
      sec ← or_fail io (read_sector cd cur)
      hit ← scan_sector sector_size sec path 0
      elim hit [ none ↦ next | some e ↦ ok e ])

unfoldable pub skip_slashes : List ℕ → List ℕ
skip_slashes [] = []
skip_slashes (c ∷ cs) = let rest = skip_slashes cs in if c == b'/' then rest else c ∷ cs

-- strchr(path, '/') != NULL
unfoldable pub has_slash : List ℕ → Bool
has_slash [] = false
has_slash (c ∷ cs) = c == b'/' || has_slash cs

-- gt2_iso_stat. Each sector takes a byte of the directory's length at least, so that length is fuel
-- enough.
unfoldable pub stat : Cd → List ℕ → Outcome IsoStatus IsoEntry
stat cd given = do
  let path = skip_slashes given
  guard (ltb 0 (length path) && leb (length path) max_name) inval
  guard (if has_slash path then false else true) not_found
  (lba, len) ← root_dir cd
  scan_dir len cd path lba len

-- the bytes of a found file, `granted` malloc's answer
unfoldable pub read_entry : Cd → Bool → IsoEntry → Outcome IsoStatus (Bytes × ℕ)
read_entry cd granted e = do
  guard (if e.flags / 2 % 2 == 1 then false else true) is_dir
  guard granted no_mem
  if e.size == 0 then ok (zeros, e.size) else (do
    buf ← or_fail io (pread cd (u32 (e.extent_lba * sector_size)) zeros e.size)
    ok (buf, e.size))

-- gt2_iso_read
unfoldable pub iso_read : Cd → List ℕ → Bool → Outcome IsoStatus (Bytes × ℕ)
iso_read cd given granted = do e ← stat cd given; read_entry cd granted e
