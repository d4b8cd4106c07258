-- ===== src/Tim/Pixels.antt =====
-- gt2_tim_decode: the pixels of an image as 24-bit RGB.
pub mod Channels
pub mod Decoded
use gt2_recomp.Prelude.{
  ℕ, zero, suc, ◌+◌, ◌-◌, ◌*◌, ◌/◌, ◌%◌, ◌^◌, Bool, true, false, ◌&&◌, ◌||◌, not, Outcome, ok, err,
  ◌>>=◌, ◌>>◌, guard, ltb, leb, ◌==◌, if◌then◌else◌,
}
use gt2_recomp.Bytes.{Bytes, zeros, copy, times, le16, u8, u32}
use gt2_recomp.Tim.{TimStatus, mode_err, truncated, no_mem, TimInfo, info_at, pix_w}

-- the three bytes that expand15 writes for a 15-bit colour
unfoldable pub expand15 : ℕ → Bytes
expand15 v c = u8 (v / 2 ^ (5 * c) % 32 * 255 / 31)

-- for (i = 0; i < n; i++): the three bytes of pixel `i` go to `i * 3`
unfoldable pub fill_rgb : ℕ → (ℕ → Bytes) → Bytes → Bytes
fill_rgb n pixel base = times n (λ i m. copy m (i * 3) (pixel i) 3) base

-- the palette on the stack, over what the stack held
unfoldable pub palette : Bytes → TimInfo → Bytes → Bytes
palette data_ptr info stack =
    fill_rgb (if ltb info.clut.colors 256 then info.clut.colors else 256)
      (λ i. expand15 (le16 data_ptr (info.clut.off + i * 2))) stack

-- the palette index of pixel `i`: a nibble or a byte, and 0 if the CLUT has no such colour
unfoldable pub pal_index : Bytes → TimInfo → ℕ → ℕ
pal_index px info i =
    let idx =
      if info.mode == 0 then if i % 2 == 1 then px (i / 2) / 16 else px (i / 2) % 16 else px i in
    if leb info.clut.colors idx then 0 else idx

-- what one round of the mode's loop stores
unfoldable pub pixel_of : Bytes → TimInfo → Bytes → ℕ → Bytes
pixel_of data_ptr info stack i =
    let px : Bytes = λ k. data_ptr (info.pix_off + k) in
    if info.mode == 2
    then expand15 (le16 px (i * 2))
    else if info.mode == 3
    then (λ c. px (i * 3 + (2 - c)))
    else (λ c. palette data_ptr info stack (pal_index px info i * 3 + c))

-- how many pixel bytes the mode takes
unfoldable pub pixel_need : ℕ → ℕ → ℕ → ℕ
pixel_need mode w h =
    if mode == 0
    then w * h / 2
    else if mode == 1
    then w * h
    else if mode == 2
    then w * h * 2
    else w * h * 3

-- gt2_tim_decode: the pixels, the width and the height. `stack` is what the palette's memory held.
unfoldable pub decode : Bytes → ℕ → ℕ → Bytes → Bool → Outcome TimStatus (Bytes × ℕ × ℕ)
decode data_ptr len index stack granted = do
  info ← info_at data_ptr len index
  let w = pix_w info
  guard (not (w == 0 || info.h == 0 || ltb 4096 w || ltb 4096 info.h)) mode_err
  guard (leb (info.pix_off + pixel_need info.mode w info.h) len) truncated
  guard (not info.has_clut || leb (info.clut.off + info.clut.colors * 2) len) truncated
  guard granted no_mem
  ok (fill_rgb (u32 (w * info.h)) (pixel_of data_ptr info stack) zeros, w, info.h)
