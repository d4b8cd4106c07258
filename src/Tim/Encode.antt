-- ===== src/Tim/Encode.antt =====
-- gt2_tim_encode, and what the header parser reads of its output.
pub mod Fields
pub mod Reads
pub mod RoundTrip
use gt2_recomp.Prelude.{
  ℕ, zero, suc, ◌+◌, ◌-◌, ◌*◌, ◌/◌, ◌%◌, ◌^◌, ◌<◌, ◌≤◌, ◌≡◌, refl, sym, ap, ◌∙◌, Bool, true, false,
  ◌&&◌, ◌||◌, not, Option, none, some, Outcome, ok, err, ◌>>=◌, ◌>>◌, guard, arith, ltb, leb, ◌==◌,
  if◌then◌else◌, bit_or, inl, inr, ◌⊎◌, or_err,
}
use gt2_recomp.Bytes.{Bytes, zeros, copy, put_u16, put_u32, le16, le32, u32, u16}
use gt2_recomp.Bytes.Laws.{copy_inside, copy_outside}
use gt2_recomp.Tim.{TimStatus, mode_err, no_mem, inval, TimInfo, Clut}

-- the length and the four halves that start a block at `p`
unfoldable pub put_header : Bytes → ℕ → ℕ → ℕ → ℕ → ℕ → ℕ → Bytes
put_header b p size x y w h =
    put_u16 (put_u16 (put_u16 (put_u16 (put_u32 b p size) (p + 4) x) (p + 6) y) (p + 8) w) (p + 10)
      h

-- the CLUT block of `clen` bytes at 8
abbrev pub put_clut : Bytes → Clut → ℕ → Bytes → Bytes
put_clut b c clen clut = copy (put_header b 8 clen c.x c.y c.w c.h) 20 clut (u32 (c.colors * 2))

-- the bytes of a block of `size` bytes; none is needed for an empty one
unfoldable pub pixels_of : ℕ → Option Bytes → Outcome TimStatus Bytes
pixels_of size none = if ltb 0 size then err inval else ok zeros
pixels_of size (some pix) = ok pix

clut_part : TimInfo → Bytes → Option Bytes → ℕ → Outcome TimStatus (Bytes × ℕ)
clut_part info b clut clen =
    if info.has_clut
    then (do colors ← or_err inval clut; ok (put_clut b info.clut clen colors, u32 (8 + clen)))
    else ok (b, 8)

-- gt2_tim_encode: the block and its length
unfoldable pub encode : TimInfo → Option Bytes → Option Bytes → Bool → Outcome TimStatus (Bytes × ℕ)
unfolding pixels_of clut_part
encode info clut pix granted = do
  guard (leb info.mode 3) mode_err
  let clen = if info.has_clut then u32 (12 + info.clut.colors * 2) else 0
  let ilen = u32 (12 + info.pix_len)
  guard granted no_mem
  let head = put_u32 (put_u32 zeros 0 0x10) 4 (bit_or info.mode (if info.has_clut then 8 else 0))
  (b, p) ← clut_part info head clut clen
  let imaged = put_header b p ilen info.orgx info.orgy info.w info.h
  body ← pixels_of info.pix_len pix
  ok (copy imaged (p + 12) body info.pix_len, u32 (u32 (8 + clen) + ilen))
