-- ===== src/Tim/Pixels/Decoded.antt =====
-- The colour of every decoded pixel.
use gt2_recomp.Prelude.{
  ℕ, ◌+◌, ◌*◌, ◌^◌, ◌<◌, ◌≤◌, ◌≡◌, sym, ap, Bool, true, false, ◌||◌, not, ok, ◌>>◌, guard, arith,
  ltb, leb, ◌==◌, >>=-eq-ok,
}
use gt2_recomp.Bytes.{Bytes, zeros, u32}
use gt2_recomp.Tim.{mode_err, truncated, no_mem, TimInfo, info_at, pix_w}
use gt2_recomp.Tim.Walks.{info_from-parsed}
use gt2_recomp.Tim.Extent.{InSlice, tim_extent-InSlice}
use gt2_recomp.Tim.Pixels.{fill_rgb, pixel_of, pixel_need, decode}
use gt2_recomp.Tim.Pixels.Channels.{fill_rgb-at, PixelIs, pixel_of-PixelIs}

info_at-InSlice :
    (d : Bytes) (len index : ℕ) (info : TimInfo)
    → len < 2 ^ 31
    → info_at d len index ≡ ok info
    → (at : ℕ) × InSlice len at false info
unfolding info_at
info_at-InSlice d len index info small h =
    let (at, inside, e) = info_from-parsed d len 0 index info small (omega arith) h in
    (at, tim_extent-InSlice d len at false info small inside e)

area_small : (w h : ℕ) → w ≤ 4096 → h ≤ 4096 → u32 (w * h) ≡ w * h
area_small w h p q = let b : w * h ≤ 4096 * 4096 = grind arith in omega (arith, b)

decode-parts :
    (d : Bytes) (len : ℕ) (stack : Bytes) (granted : Bool) (info : TimInfo) (out : Bytes × ℕ × ℕ)
    → (do
      guard
          (not (pix_w info == 0 || info.h == 0 || ltb 4096 (pix_w info) || ltb 4096 info.h))
          mode_err
      guard (leb (info.pix_off + pixel_need info.mode (pix_w info) info.h) len) truncated
      guard (not info.has_clut || leb (info.clut.off + info.clut.colors * 2) len) truncated
      guard granted no_mem
      ok (fill_rgb (u32 (pix_w info * info.h)) (pixel_of d info stack) zeros, pix_w info, info.h))
      ≡ ok out
    → (pix_w info ≤ 4096)
      × (info.h ≤ 4096)
      × (info.pix_off + pixel_need info.mode (pix_w info) info.h ≤ len)
      × (info.has_clut ≡ true → info.clut.off + info.clut.colors * 2 ≤ len)
      × ((fill_rgb (u32 (pix_w info * info.h)) (pixel_of d info stack) zeros, pix_w info, info.h)
          ≡ out)
decode-parts d len stack granted info out h =
    (ground arith, ground arith, ground arith, λ has. ground arith, ground arith)

-- the image that was decoded, and its pixels
pub record Decoded (d : Bytes) (len index : ℕ) (rgb : Bytes) (w h : ℕ) : Type 0 where
  pub info : TimInfo
  pub found : info_at d len index ≡ ok info
  pub width : w ≡ pix_w info
  pub height : h ≡ info.h
  pub pixels : (i c : ℕ) → i < w * h → c < 3 → PixelIs d len info i c (rgb (i * 3 + c))

-- Over a slice below 2 ^ 31 bytes, what gt2_tim_decode returns has the size of the image, and each channel
-- of each pixel is what the mode says: where there is a CLUT, the colour that the pixel's nibble or byte
-- names in it, the low nibble first, or its first colour if it has no such entry; the pixel's own
-- 15-bit colour, each 5 bits scaled to 0 to 255; or the pixel's own 3 bytes, reversed. Every byte of the
-- pixels and of the CLUT that these take lies in the slice.
pub decode-Decoded :
    (d : Bytes) (len index : ℕ) (stack : Bytes) (granted : Bool) (rgb : Bytes) (w h : ℕ)
    → len < 2 ^ 31
    → decode d len index stack granted ≡ ok (rgb, w, h)
    → Decoded d len index rgb w h
unfolding decode
decode-Decoded d len index stack granted rgb w h small e =
    let (info, found, rest) = >>=-eq-ok (info_at d len index) _ e in
    let (at, s) = info_at-InSlice d len index info small found in
    let (wide, high, present, clut, same) =
      decode-parts d len stack granted info (rgb, w, h) rest in
    let wd : pix_w info ≡ w = ap (λ (p : Bytes × ℕ × ℕ). p.1) same in
    let ht : info.h ≡ h = ap (λ (p : Bytes × ℕ × ℕ). p.2) same in
    let shown : fill_rgb (u32 (pix_w info * info.h)) (pixel_of d info stack) zeros ≡ rgb =
      ap (λ (p : Bytes × ℕ × ℕ). p.0) same in
    let area = area_small (pix_w info) info.h wide high in
    record {
      info = info;
      found = found;
      width = sym wd;
      height = sym ht;
      pixels = λ i c lt lc.
          let in_area : i < pix_w info * info.h = rw (wd, ht) lt in
          let lt' : i < u32 (pix_w info * info.h) = rw area in_area in
          rw
            (
              ← shown,
              fill_rgb-at (u32 (pix_w info * info.h)) i c (pixel_of d info stack) zeros lt' lc,
            )
            (pixel_of-PixelIs d len info stack i c s.mode in_area lc present
              (λ has. let (some_c, few) = s.colors has in (some_c, few, clut has)));
    }
