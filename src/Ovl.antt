-- ===== src/Ovl.antt =====
-- The overlay container GT2.OVL: decomp/src/ovl/ovl.c.
pub mod Layout
pub mod Unpacked
use gt2_recomp.Prelude.{
  ℕ, zero, suc, ◌+◌, ◌-◌, ◌*◌, Bool, true, false, ◌&&◌, ◌||◌, not, Option, none, some, List, [],
  ◌∷◌, ◌++◌, Outcome, ok, err, ◌>>=◌, ◌>>◌, guard, or_fail, ltb, leb, ◌==◌, if◌then◌else◌, length,
}
use gt2_recomp.Bytes.{Bytes, zeros, le32, u32}
use gt2_recomp.Cd.{Cd, sector_size, pread}
use gt2_recomp.Iso.{stat}
use gt2_recomp.Vol.{Alloc}
use gt2_recomp.Inflate.{Zlib, Code, z_ok, stream_end, failed}

-- gt2_ovl_status_t without its OK
pub data OvlStatus : Type 0 where
  io no_mem not_found inval corrupt : OvlStatus

-- struct gt2_ovl; `comp` and `off` have an entry for each member
pub record Ovl : Type 0 where
  pub cd : Cd
  pub file_lba : ℕ
  pub file_size : ℕ
  pub comp : ℕ → ℕ
  pub off : ℕ → ℕ

abbrev pub members : ℕ
members = 6

-- "GT2.OVL;1"
abbrev pub ovl_name : List ℕ
ovl_name = b'G' ∷ b'T' ∷ b'2' ∷ b'.' ∷ b'O' ∷ b'V' ∷ b'L' ∷ b';' ∷ b'1' ∷ []

-- the handle that the header's words give
unfoldable pub handle_of : Cd → ℕ → ℕ → Bytes → Ovl
handle_of cd lba size hdr = record {
  cd = cd;
  file_lba = lba;
  file_size = size;
  comp = λ i. le32 hdr (4 * (1 + 2 * i));
  off = λ i. if i == 0 then le32 hdr 0 else le32 hdr (4 * (2 * i));
}

-- where the member has to end
unfoldable pub member_end : Ovl → ℕ → ℕ
member_end o i = if ltb (i + 1) members then o.off (i + 1) else o.file_size

-- one round of the sanity loop, `first` the header's first word
unfoldable pub member_ok : ℕ → Ovl → ℕ → Bool
unfolding member_end
member_ok first o i = not (
    ltb (o.off i) first
    || o.comp i == 0
    || ltb (member_end o i) (u32 (o.off i + o.comp i))
    || ltb o.file_size (member_end o i))

-- the sanity loop over the `n` members from `i` on
unfoldable pub sane : ℕ → ℕ → Ovl → ℕ → Bool
unfolding member_ok
sane zero first o i = true
sane (suc n) first o i = member_ok first o i && sane n first o (i + 1)

-- gt2_ovl_open from the header on
unfoldable pub checked : Ovl → ℕ → Outcome OvlStatus Ovl
unfolding sane
checked o first = do
  guard (not (first == 0 || ltb o.file_size first)) not_found
  guard (sane members first o 0) not_found
  ok o

-- gt2_ovl_open, `granted` calloc's answer
unfoldable pub open_ovl : Cd → Bool → Outcome OvlStatus Ovl
open_ovl cd granted = do
  e ← or_fail not_found (stat cd ovl_name)
  guard granted no_mem
  hdr ← or_fail io (pread cd (u32 (e.extent_lba * sector_size)) zeros 48)
  checked (handle_of cd e.extent_lba e.size hdr) (le32 hdr 0)

-- gt2_ovl_member_range
unfoldable pub member_range : Ovl → ℕ → Outcome OvlStatus (ℕ × ℕ)
member_range o idx = if leb members idx then err inval else ok (o.off idx, o.comp idx)

abbrev pub first_cap : ℕ
first_cap = 512 * 1024

-- what gt2_ovl_read_member returns: its status, or the bytes and what it stores in size_out
abbrev pub Read : Type 0
Read = Outcome OvlStatus (List ℕ × ℕ)

-- what the loop does after an inflate call with the code and the bytes written
abbrev pub after : Code → List ℕ → Option Read → Option Read
after z_ok out again = again
after stream_end out again = some (ok (out, u32 (length out)))
after failed out again = some (err corrupt)

-- The inflate loop of gt2_ovl_read_member: `out` is what is written so far of the `cap` bytes of
-- buffer, `n` the number of the next allocation. avail_out is a 32-bit word. `none` when the fuel runs
-- out.
unfoldable pub inflate_loop : ℕ → (z : Zlib) → Alloc → ℕ → ℕ → List ℕ → z.Stream → Option Read
inflate_loop zero z alloc n cap out s = none
inflate_loop (suc fuel) z alloc n cap out s =
    let full = length out == cap in
    let room = if full then cap * 2 else cap in
    let (s', (rc, new)) = z.run s (u32 (room - length out)) in
    let again = inflate_loop fuel z alloc (if full then n + 1 else n) room (out ++ new) s' in
    if full && not (alloc n) then some (err no_mem) else after rc (out ++ new) again

-- inflateInit2 and the loop
abbrev pub inflated : ℕ → (z : Zlib) → Alloc → Option z.Stream → Option Read
inflated fuel z alloc none = some (err no_mem)
inflated fuel z alloc (some s) = inflate_loop fuel z alloc 2 first_cap [] s

-- the member's compressed bytes, or why there are none
unfoldable pub read_comp : Ovl → Bool → ℕ → Outcome OvlStatus Bytes
read_comp o granted idx = do
  guard (not (leb members idx)) inval
  guard granted no_mem
  or_fail io (pread o.cd (u32 (u32 (o.file_lba * sector_size) + o.off idx)) zeros (o.comp idx))

abbrev unpack : ℕ → (z : Zlib) → Alloc → ℕ → Outcome OvlStatus Bytes → Option Read
unpack fuel z alloc size (err e) = some (err e)
unpack fuel z alloc size (ok comp) =
    if alloc 1 then inflated fuel z alloc (z.start 31 comp size) else some (err no_mem)

-- gt2_ovl_read_member
unfoldable pub read_member : ℕ → Zlib → Ovl → Alloc → ℕ → Option Read
unfolding read_comp
read_member fuel z o alloc idx = unpack fuel z alloc (o.comp idx) (read_comp o (alloc 0) idx)
