-- ===== src/Tim/Pixels/Channels.antt =====
-- The channels of one pixel, by the mode of its image: the bits that they come from, and where these lie.
use gt2_recomp.Prelude.{
  ℕ, zero, suc, ◌+◌, ◌-◌, ◌*◌, ◌/◌, ◌%◌, ◌<◌, ◌≤◌, ◌≡◌, refl, ap, ◌∙◌, true, false, arith, ltb, leb,
  ◌==◌, if◌then◌else◌, inl, le→leb,
}
use gt2_recomp.Bytes.{Bytes, copy, le16}
use gt2_recomp.Bytes.Laws.{copy_inside, copy_outside}
use gt2_recomp.Bytes.Rounds.{times-written}
use gt2_recomp.Tim.{TimInfo, pix_w}
use gt2_recomp.Tim.Pixels.{expand15, fill_rgb, palette, pal_index, pixel_of, pixel_need}

pub fill_rgb-at :
    (n i c : ℕ) (pixel : ℕ → Bytes) (base : Bytes)
    → i < n
    → c < 3
    → fill_rgb n pixel base (i * 3 + c) ≡ pixel i c
unfolding fill_rgb
fill_rgb-at n i c pixel base h lt =
    times-written n i (pixel i c) (λ j m. copy m (j * 3) (pixel j) 3) base (i * 3 + c) h
      (λ b. copy_inside b (pixel i) (i * 3) 3 c lt)
      (λ j b lo hi. copy_outside b (pixel j) (j * 3) 3 (i * 3 + c) (inl (omega arith)))

-- channel 0, 1 or 2 of a 15-bit colour, red in the low bits, before it is scaled
abbrev pub five_bits : ℕ → ℕ → ℕ
five_bits word zero = word % 32
five_bits word (suc zero) = word / 32 % 32
five_bits word (suc (suc c)) = word / 1024 % 32

-- 0 to 31 scaled to 0 to 255, rounded down
abbrev pub scaled : ℕ → ℕ → ℕ
scaled word c = five_bits word c * 255 / 31

-- Channel `c` of pixel `i` of an image with a CLUT. The index of the pixel is a nibble, the low one of
-- its byte first, or a byte; its colour is that entry of the CLUT, or entry 0 if there is no such entry.
-- Each byte that is named lies in the slice.
pub record Coloured (d : Bytes) (len : ℕ) (info : TimInfo) (i c value : ℕ) : Type 0 where
  pub idx : ℕ
  pub even :
      (p : ℕ)
      → info.mode ≡ 0
      → i ≡ p * 2
      → (info.pix_off + p < len) × (idx ≡ d (info.pix_off + p) % 16)
  pub odd :
      (p : ℕ)
      → info.mode ≡ 0
      → i ≡ p * 2 + 1
      → (info.pix_off + p < len) × (idx ≡ d (info.pix_off + p) / 16)
  pub byte : info.mode ≡ 1 → (info.pix_off + i < len) × (idx ≡ d (info.pix_off + i))
  pub inside :
      idx < info.clut.colors
      → (info.clut.off + idx * 2 + 1 < len) × (value ≡ scaled (le16 d (info.clut.off + idx * 2)) c)
  pub beyond :
      info.clut.colors ≤ idx → (info.clut.off + 1 < len) × (value ≡ scaled (le16 d info.clut.off) c)

-- channel `c` of pixel `i`, by the mode of the image
pub record PixelIs (d : Bytes) (len : ℕ) (info : TimInfo) (i c value : ℕ) : Type 0 where
  pub indexed : info.mode < 2 → info.has_clut ≡ true → Coloured d len info i c value
  pub direct :
      info.mode ≡ 2
      → (info.pix_off + i * 2 + 1 < len) × (value ≡ scaled (le16 d (info.pix_off + i * 2)) c)
  pub full :
      info.mode ≡ 3
      → (info.pix_off + i * 3 + 2 < len) × (value ≡ d (info.pix_off + i * 3 + (2 - c)))

expand15-scaled : (v c : ℕ) → c < 3 → expand15 v c ≡ scaled v c
unfolding expand15
expand15-scaled v zero lt = omega arith
expand15-scaled v (suc zero) lt = omega arith
expand15-scaled v (suc (suc zero)) lt = omega arith
expand15-scaled v (suc (suc (suc c))) lt = absurd (omega arith)

-- the index before it is compared with the number of colours
abbrev own_index : Bytes → TimInfo → ℕ → ℕ
own_index px info i =
    if info.mode == 0 then if i % 2 == 1 then px (i / 2) / 16 else px (i / 2) % 16 else px i

pal_index-inside :
    (px : Bytes) (info : TimInfo) (i : ℕ)
    → own_index px info i < info.clut.colors
    → pal_index px info i ≡ own_index px info i
unfolding pal_index
pal_index-inside px info i h =
    let e : leb info.clut.colors (own_index px info i) ≡ false = lt→not_leb h in rw e refl
  where
    lt→not_leb : {a b : ℕ} → a < b → leb b a ≡ false
    lt→not_leb h = ground arith

pal_index-beyond :
    (px : Bytes) (info : TimInfo) (i : ℕ)
    → info.clut.colors ≤ own_index px info i
    → pal_index px info i ≡ 0
unfolding pal_index
pal_index-beyond px info i h =
    let e : leb info.clut.colors (own_index px info i) ≡ true = le→leb _ _ h in rw e refl

palette-at :
    (d : Bytes) (info : TimInfo) (stack : Bytes) (idx c : ℕ)
    → idx < info.clut.colors
    → info.clut.colors ≤ 256
    → c < 3
    → palette d info stack (idx * 3 + c) ≡ scaled (le16 d (info.clut.off + idx * 2)) c
unfolding palette
palette-at d info stack idx c h few lt =
    fill_rgb-at (if ltb info.clut.colors 256 then info.clut.colors else 256) idx c
      (λ i. expand15 (le16 d (info.clut.off + i * 2))) stack (ground arith) lt
    ∙ expand15-scaled (le16 d (info.clut.off + idx * 2)) c lt

quads : (w h : ℕ) → w * 4 * h ≡ 4 * (w * h)
quads w h = grind arith

-- the width of a nibble image is a multiple of 4, so that its last byte is whole
half_of_quads : (w h i : ℕ) → i < w * 4 * h → i / 2 < w * 4 * h / 2
half_of_quads w h i lt = omega (arith, quads w h)

own_index-even :
    (px : Bytes) (info : TimInfo) (i p : ℕ)
    → info.mode ≡ 0
    → i ≡ p * 2
    → own_index px info i ≡ px p % 16
own_index-even px info i p z e =
    let a : (info.mode == 0) ≡ true = ground arith in
    let b : (i % 2 == 1) ≡ false = ground arith in
    let h : i / 2 ≡ p = omega arith in rw (a, b, h) refl

own_index-odd :
    (px : Bytes) (info : TimInfo) (i p : ℕ)
    → info.mode ≡ 0
    → i ≡ p * 2 + 1
    → own_index px info i ≡ px p / 16
own_index-odd px info i p z e =
    let a : (info.mode == 0) ≡ true = ground arith in
    let b : (i % 2 == 1) ≡ true = ground arith in
    let h : i / 2 ≡ p = omega arith in rw (a, b, h) refl

own_index-byte : (px : Bytes) (info : TimInfo) (i : ℕ) → info.mode ≡ 1 → own_index px info i ≡ px i
own_index-byte px info i one = let a : (info.mode == 0) ≡ false = ground arith in rw a refl

-- the pixel bytes of an image whose width is that of its mode
pixel_need-bytes :
    (info : TimInfo) (i : ℕ)
    → info.mode ≤ 3
    → i < pix_w info * info.h
    → (info.mode ≡ 0 → i / 2 < pixel_need info.mode (pix_w info) info.h)
      × (info.mode ≡ 1 → i < pixel_need info.mode (pix_w info) info.h)
      × (info.mode ≡ 2 → i * 2 + 1 < pixel_need info.mode (pix_w info) info.h)
      × (info.mode ≡ 3 → i * 3 + 2 < pixel_need info.mode (pix_w info) info.h)
unfolding pixel_need pix_w
pixel_need-bytes info i m lt = (
  λ z.
      let a : (info.mode == 0) ≡ true = ground arith in
      rw a (half_of_quads info.w info.h i (rw a at lt)),
  λ z.
      let a : (info.mode == 0) ≡ false = ground arith in
      let b : (info.mode == 1) ≡ true = ground arith in rw (a, b) (rw (a, b) at lt),
  λ z.
      let a : (info.mode == 0) ≡ false = ground arith in
      let b : (info.mode == 1) ≡ false = ground arith in
      let c : (info.mode == 2) ≡ true = ground arith in
      let area : i < info.w * info.h = rw (a, b) at lt in rw (a, b, c) (omega (arith, area)),
  λ z.
      let a : (info.mode == 0) ≡ false = ground arith in
      let b : (info.mode == 1) ≡ false = ground arith in
      let c : (info.mode == 2) ≡ false = ground arith in
      let area : i < info.w * info.h = rw (a, b) at lt in rw (a, b, c) (omega (arith, area)),
)

module _ (d : Bytes) (len : ℕ) (info : TimInfo) (stack : Bytes) (i c : ℕ) (mode : info.mode ≤ 3)
    (inside : i < pix_w info * info.h) (lt : c < 3)
    (present : info.pix_off + pixel_need info.mode (pix_w info) info.h ≤ len)
    (colours : info.has_clut ≡ true
      → (0 < info.clut.colors)
        × (info.clut.colors ≤ 256)
        × (info.clut.off + info.clut.colors * 2 ≤ len)) where
  pixel_of-Coloured :
      info.mode < 2 → info.has_clut ≡ true → Coloured d len info i c (pixel_of d info stack i c)
  unfolding pixel_of
  pixel_of-Coloured m has =
      let px : Bytes = λ k. d (info.pix_off + k) in
      let (some_c, few, ends) = colours has in
      let bytes = pixel_need-bytes info i mode inside in
      let two : (info.mode == 2) ≡ false = ground arith in
      let three : (info.mode == 3) ≡ false = ground arith in
      record {
        idx = own_index px info i;
        even = λ p z e. (omega (arith, bytes.0 z, e, present), own_index-even px info i p z e);
        odd = λ p z e. (omega (arith, bytes.0 z, e, present), own_index-odd px info i p z e);
        byte = λ one. (omega (arith, bytes.1 one, present), own_index-byte px info i one);
        inside = λ below. (
          omega (arith, below, ends),
          rw (two, three, pal_index-inside px info i below)
              (palette-at d info stack (own_index px info i) c below few lt),
        );
        beyond = λ above. (
          omega (arith, some_c, ends),
          rw (two, three, pal_index-beyond px info i above)
              (palette-at d info stack 0 c some_c few lt ∙ first_entry),
        );
      }
    where
      first_entry : scaled (le16 d (info.clut.off + 0 * 2)) c ≡ scaled (le16 d info.clut.off) c
      first_entry =
          let z : info.clut.off + 0 * 2 ≡ info.clut.off = omega arith in
          ap (λ (o : ℕ). scaled (le16 d o) c) z

  pub pixel_of-PixelIs : PixelIs d len info i c (pixel_of d info stack i c)
  unfolding pixel_of
  pixel_of-PixelIs = record {
    indexed = pixel_of-Coloured;
    direct = λ m.
        let bytes = pixel_need-bytes info i mode inside in
        let a : (info.mode == 2) ≡ true = ground arith in
        let e : info.pix_off + (i * 2 + 1) ≡ info.pix_off + i * 2 + 1 = omega arith in
        (
          omega (arith, bytes.2 m, present),
          rw (a, e) (expand15-scaled (le16 d (info.pix_off + i * 2)) c lt),
        );
    full = λ m.
        let bytes = pixel_need-bytes info i mode inside in
        let a : (info.mode == 2) ≡ false = ground arith in
        let b : (info.mode == 3) ≡ true = ground arith in
        let e : info.pix_off + (i * 3 + (2 - c)) ≡ info.pix_off + i * 3 + (2 - c) = omega arith in
        (omega (arith, bytes.3 m, present), rw (a, b, e) refl);
  }
