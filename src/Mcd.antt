-- ===== src/Mcd.antt =====
-- The memory-card image, decomp/src/mcd/mcd.c: opening, the directory, reading a chain of blocks, and
-- formatting. Writing and deleting are in Mcd/Store.antt.
pub mod Sums
pub mod Fresh
pub mod Chains
pub mod Reads
pub mod Store
use gt2_recomp.Prelude.{
  ℕ, zero, suc, ◌+◌, ◌-◌, ◌*◌, ◌/◌, ◌%◌, ◌^◌, Bool, true, false, ◌&&◌, ◌||◌, not, Option, none,
  some, List, [], ◌∷◌, Outcome, ok, err, ◌>>=◌, ◌>>◌, guard, ltb, leb, ◌==◌, if◌then◌else◌, bit_xor,
}
use gt2_recomp.Cd.{File}
use gt2_recomp.Bytes.{times, Bytes, zeros, write, copy, fill, le16, le32, c_string}

abbrev pub mcd_size : ℕ
mcd_size = 131072

abbrev pub dir_entries : ℕ
dir_entries = 15

abbrev pub st_first : ℕ
st_first = 0x51

abbrev pub st_mid : ℕ
st_mid = 0x52

abbrev pub st_last : ℕ
st_last = 0x53

abbrev pub st_free : ℕ
st_free = 0xA0

-- gt2_mcd_status_t without its OK
pub data McdStatus : Type 0 where
  io no_mem inval not_found nospace exists : McdStatus

-- gt2_mcd_dir_t
pub record DirEntry : Type 0 where
  pub state : ℕ
  pub size : ℕ
  pub next : ℕ
  pub name : List ℕ
  pub checksum_ok : Bool

-- xor_sum of the `n` bytes at `p`
unfoldable pub xor_sum : Bytes → ℕ → ℕ → ℕ
xor_sum m p zero = 0
xor_sum m p (suc n) = bit_xor (xor_sum m p n) (m (p + n))

-- frame_at, as an offset
abbrev pub frame_at : ℕ → ℕ → ℕ
frame_at block frame = (block * 64 + frame) * 128

-- gt2_mcd_open_mem: the card's image. Its two allocations are the handle and the copy.
unfoldable pub open_mem : Bytes → ℕ → (ℕ → Bool) → Outcome McdStatus Bytes
open_mem m len alloc = do
  guard (not (not (len == mcd_size) || not (m 0 == b'M') || not (m 1 == b'C'))) inval
  guard (alloc 0) no_mem
  guard (alloc 1) no_mem
  ok (copy zeros 0 m mcd_size)

-- gt2_mcd_open. The file is what fopen returned; the read buffer is one more allocation.
unfoldable pub open_file : Option File → (ℕ → Bool) → Outcome McdStatus Bytes
open_file none alloc = err io
open_file (some f) alloc = do
  guard (alloc 0) no_mem
  guard (leb mcd_size f.size) inval
  open_mem f.at mcd_size (λ n. alloc (n + 1))

-- gt2_mcd_header_ok
unfoldable pub header_ok : Bytes → Bool
header_ok img =
    img (frame_at 0 0) == b'M'
    && img (frame_at 0 0 + 1) == b'C'
    && img (frame_at 0 0 + 0x7F) == xor_sum img (frame_at 0 0) 0x7F

unfoldable pub in_use : ℕ → Bool
in_use state = state == st_first || state == st_mid || state == st_last

count_from : ℕ → Bytes → ℕ → ℕ
count_from zero img i = 0
count_from (suc n) img i =
    let rest = count_from n img (i + 1) in
    if in_use (le32 img (frame_at 0 (1 + i))) then suc rest else rest

-- gt2_mcd_file_count
unfoldable pub file_count : Bytes → ℕ
unfolding count_from
file_count img = count_from dir_entries img 0

unfoldable pub entry_at : Bytes → ℕ → DirEntry
entry_at img f = record {
  state = le32 img f;
  size = le32 img (f + 4);
  next = le16 img (f + 8);
  name = c_string 21 img (f + 10);
  checksum_ok = img (f + 0x7F) == xor_sum img f 0x7F;
}

-- gt2_mcd_dir
unfoldable pub dir : Bytes → ℕ → Outcome McdStatus DirEntry
dir img idx = if leb dir_entries idx then err inval else ok (entry_at img (frame_at 0 (1 + idx)))

-- the block after `blk` in its chain
unfoldable pub next_block : Bytes → ℕ → Outcome McdStatus ℕ
next_block img blk = do
  e ← (elim (dir img (blk - 1)) [ ok e ↦ ok e | err st ↦ err inval ])
  guard (not (e.next == 0xFFFF)) inval
  ok (e.next + 1)

-- The copying loop of gt2_mcd_read, `n` blocks from block `blk`, to `buf + b * 8192`.
unfoldable pub read_blocks : ℕ → Bytes → ℕ → ℕ → Bytes → Outcome McdStatus Bytes
read_blocks zero img blk b buf = ok buf
read_blocks (suc zero) img blk b buf = do
  guard (not (ltb blk 1 || ltb 15 blk)) inval
  ok (copy buf (b * 8192) (λ k. img (blk * 8192 + k)) 8192)
read_blocks (suc (suc n)) img blk b buf = do
  guard (not (ltb blk 1 || ltb 15 blk)) inval
  next ← next_block img blk
  read_blocks (suc n) img next (b + 1) (copy buf (b * 8192) (λ k. img (blk * 8192 + k)) 8192)

-- gt2_mcd_read: the buffer and the size. `blocks` is computed on u32.
unfoldable pub read : Bytes → ℕ → Bool → Outcome McdStatus (Bytes × ℕ)
read img dir_idx granted = do
  d ← dir img dir_idx
  guard (d.state == st_first) not_found
  let blocks = (d.size + 8191) % 2 ^ 32 / 8192
  guard (not (blocks == 0 || ltb 15 blocks)) inval
  guard granted no_mem
  buf ← read_blocks blocks img (dir_idx + 1) 0 zeros
  ok (buf, d.size)

-- frame_checksum of the frame at `f`
unfoldable pub frame_checksum : Bytes → ℕ → Bytes
frame_checksum m f = write m (f + 0x7F) (xor_sum m f 0x7F)

unfoldable pub free_frame : ℕ → Bytes → Bytes
free_frame i m =
    let f = (1 + i) * 128 in
    frame_checksum (write (write (write m f st_free) (f + 8) 0xFF) (f + 9) 0xFF) f

unfoldable pub broken_frame : ℕ → Bytes → Bytes
broken_frame i m =
    let f = (16 + i) * 128 in
    frame_checksum (write (write (fill (fill m f 0 128) f 0xFF 4) (f + 8) 0xFF) (f + 9) 0xFF) f

-- the header frame and its copy
unfoldable pub header_frames : Bytes → Bytes
header_frames m =
    let h = frame_checksum (write (write (fill m 0 0 mcd_size) 0 b'M') 1 b'C') 0 in
    copy h (63 * 128) h 128

-- gt2_mcd_format
unfoldable pub format : Bytes → Bytes
format m =
    fill (times 20 broken_frame (times dir_entries free_frame (header_frames m))) 8192 0xFF
      (mcd_size - 8192)
