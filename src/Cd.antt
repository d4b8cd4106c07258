-- ===== src/Cd.antt =====
-- CD image sector reads over cooked and raw dumps: decomp/src/cd/cd.c.
pub mod Pread
pub mod Opened
use gt2_recomp.Prelude.{
  ℕ, zero, suc, ◌+◌, ◌-◌, ◌*◌, ◌/◌, ◌%◌, Bool, true, false, ◌&&◌, not, Option, none, some, Outcome,
  ok, err, ◌>>=◌, ltb, leb, ◌==◌, if◌then◌else◌,
}
use gt2_recomp.Bytes.{Bytes, copy, u32}

-- What stdio answers for one opened file: its bytes, and which seeks it grants. `tell` is ftell
-- after the seek to the end, `none` if that is negative.
pub record File : Type 0 where
  pub at : Bytes
  pub size : ℕ
  pub seek_end : Bool
  pub tell : Option ℕ
  pub seek : ℕ → Bool

-- gt2_cd_status_t without its OK
pub data CdStatus : Type 0 where
  io no_mem inval : CdStatus

pub record Cd : Type 0 where
  pub file : File
  pub raw : Bool

abbrev pub sector_size : ℕ
sector_size = 2048

abbrev pub raw_sector : ℕ
raw_sector = 2352

abbrev pub raw_payload_off : ℕ
raw_payload_off = 24

unfoldable pub is_raw_size : ℕ → Bool
is_raw_size size = size % raw_sector == 0 && not (size % sector_size == 0)

sized : File → Bool → Option ℕ → Outcome CdStatus Cd
sized f granted none = err io
sized f granted (some size) =
    if granted then ok (record { file = f; raw = is_raw_size size }) else err no_mem

-- gt2_cd_open. The file is what fopen returned; `granted` says whether malloc succeeds.
unfoldable pub open_cd : Option File → Bool → Outcome CdStatus Cd
unfolding sized is_raw_size
open_cd none granted = err io
open_cd (some f) granted = if f.seek_end then sized f granted f.tell else err io

-- where a sector's 2048 bytes start in the file
unfoldable pub file_off : Cd → ℕ → ℕ
file_off cd lba = if cd.raw then lba * raw_sector + raw_payload_off else lba * sector_size

-- the seek is granted and the file holds the whole sector
unfoldable pub sector_ok : Cd → ℕ → Bool
unfolding file_off
sector_ok cd lba =
    cd.file.seek (file_off cd lba) && leb (file_off cd lba + sector_size) cd.file.size

-- gt2_cd_read_sector
unfoldable pub read_sector : Cd → ℕ → Outcome CdStatus Bytes
unfolding sector_ok
read_sector cd lba = if sector_ok cd lba then ok (λ i. cd.file.at (file_off cd lba + i)) else err io

-- bytes that one round takes from the sector of `off`
unfoldable pub round_take : ℕ → ℕ → ℕ
round_take off len =
    if ltb len (sector_size - off % sector_size) then len else sector_size - off % sector_size

-- The loop of gt2_cd_pread, `dst` at `buf + pos`. Each round takes a byte at least, so `len` rounds
-- are enough.
unfoldable pub pread_loop : ℕ → Cd → ℕ → ℕ → Bytes → ℕ → Outcome CdStatus Bytes
unfolding round_take read_sector
pread_loop zero cd off len buf pos = ok buf
pread_loop (suc fuel) cd off len buf pos =
    let take = round_take off len in
    if len == 0 then ok buf else (do
      sec ← read_sector cd (off / sector_size)
      let taken = copy buf pos (λ i. sec (off % sector_size + i)) take
      pread_loop fuel cd (u32 (off + take)) (len - take) taken (pos + take))

-- gt2_cd_pread
unfoldable pub pread : Cd → ℕ → Bytes → ℕ → Outcome CdStatus Bytes
unfolding pread_loop
pread cd off buf len = pread_loop len cd off len buf 0
