-- ===== src/Tim/Extent.antt =====
-- What the header parser accepts lies inside the slice.
use gt2_recomp.Prelude.{
  ℕ, ◌+◌, ◌-◌, ◌*◌, ◌/◌, ◌%◌, ◌^◌, ◌<◌, ◌≤◌, ◌≡◌, refl, sym, ap, ◌∙◌, Bool, true, false, ok, ◌>>=◌,
  arith, leb, >>=-eq-ok, ok-injective,
}
use gt2_recomp.Bytes.{Bytes, le32, u32, sub32}
use gt2_recomp.Tim.{Clut, TimInfo, no_clut, clut_block, image_dims, image_block, tim_extent}

-- the CLUT lies between the header and the image block, which starts at `p`
record ClutIn (len p : ℕ) (has : Bool) (clut : Clut) (q : ℕ) : Type 0 where
  after : p ≤ q
  near : q ≤ p + 525
  within : q ≤ len
  start : has ≡ true → clut.off ≡ p + 12
  fits : has ≡ true → clut.off + clut.colors * 2 ≤ q
  some_colors : has ≡ true → (0 < clut.colors) × (clut.colors ≤ 256)
  none_colors : has ≡ false → clut.colors ≡ 0

clut_absent : (len p : ℕ) → p ≤ len → ClutIn len p false no_clut p
clut_absent len p h = record {
  after = omega arith;
  near = omega arith;
  within = h;
  start = λ e. cc;
  fits = λ e. cc;
  some_colors = λ e. cc;
  none_colors = λ e. refl;
}

clut_block-ok :
    (d : Bytes) (len p : ℕ) (clut : Clut) (q : ℕ)
    → len < 2 ^ 31
    → p ≤ len
    → clut_block d len p true ≡ ok (clut, q)
    → (clut.colors ≡ (le32 d p - 12) / 2)
      × (clut.off ≡ u32 (p + 12))
      × (q ≡ u32 (p + le32 d p))
      × (12 ≤ le32 d p)
      × (u32 (p + le32 d p) ≤ len)
      × (0 < clut.colors)
      × (clut.colors ≤ 256)
unfolding clut_block
clut_block-ok d len p clut q small h e = (
  ground arith,
  ground arith,
  ground arith,
  ground arith,
  ground arith,
  ground arith,
  ground arith,
)

clut_block-none :
    (d : Bytes) (len p : ℕ) (clut : Clut) (q : ℕ)
    → clut_block d len p false ≡ ok (clut, q)
    → (no_clut ≡ clut) × (p ≡ q)
unfolding clut_block
clut_block-none d len p clut q e =
    let pair : (no_clut, p) ≡ (clut, q) = ok-injective e in
    (ap (λ (x : Clut × ℕ). x.0) pair, ap (λ (x : Clut × ℕ). x.1) pair)

clut_block-ClutIn :
    (d : Bytes) (len p : ℕ) (has : Bool) (clut : Clut) (q : ℕ)
    → len < 2 ^ 31
    → p ≤ len
    → clut_block d len p has ≡ ok (clut, q)
    → ClutIn len p has clut q
clut_block-ClutIn d len p false clut q small h e =
    let (same, at) = clut_block-none d len p clut q e in rw (← same, ← at) (clut_absent len p h)
clut_block-ClutIn d len p true clut q small h e =
    let (c, o, r, low, in_len, some_c, few) = clut_block-ok d len p clut q small h e in
    record {
      after = omega arith;
      near = omega arith;
      within = omega arith;
      start = λ x. omega arith;
      fits = λ x. omega arith;
      some_colors = λ x. (some_c, few);
      none_colors = λ x. cc;
    }

-- the image block at `p` of the TIM at `off`
record ImageIn (d : Bytes) (len off p : ℕ) (overshoot : Bool) (info : TimInfo) : Type 0 where
  room : p ≤ len
  pixels : info.pix_off ≡ p + 12
  pixels_in : info.pix_off ≤ len
  size : info.pix_len ≡ le32 d p - 12
  total : info.total_len + off ≡ p + le32 d p
  bounded : (12 ≤ le32 d p) × (le32 d p ≤ 2 ^ 24)
  strict : overshoot ≡ false → p + le32 d p ≤ len
  dims : (0 < info.w) × (info.w ≤ 1024) × (0 < info.h) × (info.h ≤ 1024)

image_block-ok :
    (d : Bytes) (len off p : ℕ) (overshoot has : Bool) (mode : ℕ) (clut : Clut) (info : TimInfo)
    → image_block d len off overshoot mode has (clut, p) ≡ ok info
    → (u32 (p + 12) ≤ len)
      × (info.pix_off ≡ u32 (p + 12))
      × (info.pix_len ≡ le32 d p - 12)
      × (info.total_len ≡ u32 (sub32 p off + le32 d p))
      × (12 ≤ le32 d p)
      × (le32 d p ≤ 2 ^ 24)
unfolding image_block
image_block-ok d len off p overshoot has mode clut info e =
    (ground arith, ground arith, ground arith, ground arith, ground arith, ground arith)

image_block-dims :
    (d : Bytes) (len off p : ℕ) (overshoot has : Bool) (mode : ℕ) (clut : Clut) (info : TimInfo)
    → image_block d len off overshoot mode has (clut, p) ≡ ok info
    → (0 < info.w) × (info.w ≤ 1024) × (0 < info.h) × (info.h ≤ 1024)
unfolding image_block image_dims
image_block-dims d len off p overshoot has mode clut info e =
    (ground arith, ground arith, ground arith, ground arith)

image_block-strict :
    (d : Bytes) (len off p : ℕ) (has : Bool) (mode : ℕ) (clut : Clut) (info : TimInfo)
    → image_block d len off false mode has (clut, p) ≡ ok info
    → u32 (p + le32 d p) ≤ len
unfolding image_block
image_block-strict d len off p has mode clut info e = ground arith

image_block-carried :
    (d : Bytes) (len off p : ℕ) (overshoot has : Bool) (mode : ℕ) (clut : Clut) (info : TimInfo)
    → image_block d len off overshoot mode has (clut, p) ≡ ok info
    → (info.mode ≡ mode) × (info.has_clut ≡ has) × (info.clut ≡ clut)
unfolding image_block
image_block-carried d len off p overshoot has mode clut info e =
    (ground arith, ground arith, ground arith)

image_block-ImageIn :
    (d : Bytes) (len off p : ℕ) (overshoot has : Bool) (mode : ℕ) (clut : Clut) (info : TimInfo)
    → len < 2 ^ 31
    → off ≤ p
    → p ≤ len
    → image_block d len off overshoot mode has (clut, p) ≡ ok info
    → ImageIn d len off p overshoot info
image_block-ImageIn d len off p overshoot has mode clut info small ord h e =
    let (a, b, c, t, low, high) = image_block-ok d len off p overshoot has mode clut info e in
    record {
      room = h;
      pixels = omega arith;
      pixels_in = omega arith;
      size = c;
      total = omega arith;
      bounded = (low, high);
      strict = λ no. omega (arith, image_block-strict d len off p has mode clut info (rw no at e));
      dims = image_block-dims d len off p overshoot has mode clut info e;
    }

-- An accepted image lies in its slice: the header, the CLUT and the pixels come one after the other,
-- the CLUT and the start of the pixels are inside, and so is the whole image unless overshoot is allowed.
pub record InSlice (len off : ℕ) (overshoot : Bool) (info : TimInfo) : Type 0 where
  pub mode : info.mode ≤ 3
  pub clut_start : info.has_clut ≡ true → info.clut.off ≡ off + 20
  pub clut_end : info.has_clut ≡ true → info.clut.off + info.clut.colors * 2 + 12 ≤ info.pix_off
  pub colors : info.has_clut ≡ true → (0 < info.clut.colors) × (info.clut.colors ≤ 256)
  pub no_colors : info.has_clut ≡ false → info.clut.colors ≡ 0
  pub pixels : (off + 20 ≤ info.pix_off) × (info.pix_off ≤ len)
  pub ends : info.pix_off + info.pix_len ≡ off + info.total_len
  pub strict : overshoot ≡ false → off + info.total_len ≤ len
  pub dims : (0 < info.w) × (info.w ≤ 1024) × (0 < info.h) × (info.h ≤ 1024)

tim_extent-head :
    (d : Bytes) (len off : ℕ) (overshoot : Bool) (info : TimInfo)
    → tim_extent d len off overshoot ≡ ok info
    → (u32 (off + 8) ≤ len)
      × (le32 d (off + 4) % 8 ≤ 3)
      × (((clut_block d len (u32 (off + 8)) (leb 8 (le32 d (off + 4))))
            >>= image_block d len off overshoot (le32 d (off + 4) % 8) (leb 8 (le32 d (off + 4))))
          ≡ ok info)
unfolding tim_extent
tim_extent-head d len off overshoot info e = (ground arith, ground arith, ground arith)

-- Over a slice below 2 ^ 31 bytes, an image that the header parser accepts lies in the slice.
pub tim_extent-InSlice :
    (d : Bytes) (len off : ℕ) (overshoot : Bool) (info : TimInfo)
    → len < 2 ^ 31
    → off ≤ len
    → tim_extent d len off overshoot ≡ ok info
    → InSlice len off overshoot info
tim_extent-InSlice d len off overshoot info small h e =
    let (head, mode, rest) = tim_extent-head d len off overshoot info e in
    let flag = le32 d (off + 4) in
    let ((clut, q), block, image) =
      >>=-eq-ok (clut_block d len (u32 (off + 8)) (leb 8 flag))
        (image_block d len off overshoot (flag % 8) (leb 8 flag)) rest in
    let c = clut_block-ClutIn d len (u32 (off + 8)) (leb 8 flag) clut q small head block in
    let after = c.after in
    let (m, has, same) =
      image_block-carried d len off q overshoot (leb 8 flag) (flag % 8) clut info image in
    let i =
      image_block-ImageIn d len off q overshoot (leb 8 flag) (flag % 8) clut info small
        (omega (arith, after)) c.within image in
    record {
      mode = omega arith;
      clut_start = λ yes. rw same (omega (arith, c.start (sym has ∙ yes)));
      clut_end = λ yes. rw same (omega (arith, c.fits (sym has ∙ yes), i.pixels));
      colors = λ yes. rw same (c.some_colors (sym has ∙ yes));
      no_colors = λ no. rw same (c.none_colors (sym has ∙ no));
      pixels = (omega (arith, i.pixels, after), i.pixels_in);
      ends = omega (arith, i.pixels, i.size, i.total, i.bounded.0);
      strict = λ no. omega (arith, i.total, i.strict no);
      dims = i.dims;
    }
