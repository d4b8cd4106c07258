-- ===== src/Tim/Encode/Reads.antt =====
-- What the header parser returns where the headers of an image stand.
use gt2_recomp.Prelude.{
  ℕ, ◌+◌, ◌-◌, ◌*◌, ◌/◌, ◌%◌, ◌^◌, ◌<◌, ◌≤◌, ◌≡◌, refl, sym, Bool, true, false, ◌||◌, ok, arith,
  ltb, leb, ◌==◌, le→leb, if◌then◌else◌, Bool-cases, inl, inr,
}
use gt2_recomp.Bytes.{Bytes, le32, u32, sub32}
use gt2_recomp.Tim.{
  Clut, TimInfo, no_clut, clut_dims, clut_block, image_dims, image_block, tim_extent,
}
use gt2_recomp.Tim.Encode.Fields.{Header}

-- bytes of the CLUT block
abbrev pub clut_size : TimInfo → ℕ
clut_size info = if info.has_clut then 12 + info.clut.colors * 2 else 0

pub record IsClut (c : Clut) : Type 0 where
  pub coords : (c.x < 2 ^ 16) × (c.y < 2 ^ 16)
  pub dims : (0 < c.w) × (c.w ≤ 256) × (0 < c.h) × (c.h ≤ 256)
  pub colors : (0 < c.colors) × (c.colors ≤ 256)
  pub off : c.off ≡ 20

-- an image that stands at the start of a slice, with its fields in range
pub record IsImage (info : TimInfo) : Type 0 where
  pub mode : info.mode ≤ 3
  pub coords : (info.orgx < 2 ^ 16) × (info.orgy < 2 ^ 16)
  pub dims : (0 < info.w) × (info.w ≤ 1024) × (0 < info.h) × (info.h ≤ 1024)
  pub clut : info.has_clut ≡ true → IsClut info.clut
  pub plain : info.has_clut ≡ false → info.clut ≡ no_clut
  pub pixels : info.pix_len + 12 ≤ 2 ^ 24
  pub pix_off : info.pix_off ≡ 8 + clut_size info + 12
  pub total : info.total_len ≡ 8 + clut_size info + 12 + info.pix_len

image_block-reads :
    (d : Bytes) (len p : ℕ) (info : TimInfo)
    → Header d p (info.pix_len + 12) info.orgx info.orgy info.w info.h
    → p + 12 + info.pix_len ≤ len
    → len < 2 ^ 31
    → IsImage info
    → info.pix_off ≡ p + 12
    → info.total_len ≡ p + (info.pix_len + 12)
    → image_block d len 0 false info.mode info.has_clut (info.clut, p) ≡ ok info
unfolding image_block image_dims
image_block-reads d len p info hd room small v po tot =
    let pix = v.pixels in
    let dims = v.dims in
    let g1 : leb (u32 (p + 12)) len ≡ true = le→leb _ _ (omega arith) in
    let g2 : leb 12 (info.pix_len + 12) ≡ true = le→leb _ _ (omega arith) in
    let g3 : (info.w == 0 || info.h == 0 || ltb 1024 info.w || ltb 1024 info.h) ≡ false =
      ground arith in
    let g4 : leb (u32 (p + (info.pix_len + 12))) len ≡ true = le→leb _ _ (omega arith) in
    let g5 : leb (info.pix_len + 12) (2 ^ 24) ≡ true = le→leb _ _ (omega arith) in
    let f1 : u32 (p + 12) ≡ info.pix_off = omega arith in
    let f2 : info.pix_len + 12 - 12 ≡ info.pix_len = omega arith in
    let f3 : u32 (sub32 p 0 + (info.pix_len + 12)) ≡ info.total_len = omega arith in
    rw (hd.length_at, hd.x_at, hd.y_at, hd.w_at, hd.h_at, g1, g2, g3, g4, g5, f1, f2, f3) refl

clut_block-reads :
    (d : Bytes) (len : ℕ) (c : Clut)
    → Header d 8 (12 + c.colors * 2) c.x c.y c.w c.h
    → 20 + c.colors * 2 ≤ len
    → len < 2 ^ 31
    → IsClut c
    → clut_block d len 8 true ≡ ok (c, 20 + c.colors * 2)
unfolding clut_block clut_dims
clut_block-reads d len c hd room small v =
    let dims = v.dims in
    let colors = v.colors in
    let g1 : leb 20 len ≡ true = le→leb _ _ (omega arith) in
    let g2 : leb 12 (12 + c.colors * 2) ≡ true = le→leb _ _ (omega arith) in
    let g3 : leb (u32 (8 + (12 + c.colors * 2))) len ≡ true = le→leb _ _ (omega arith) in
    let g4 : (c.w == 0 || c.h == 0 || ltb 256 c.w || ltb 256 c.h) ≡ false = ground arith in
    let f1 : (12 + c.colors * 2 - 12) / 2 ≡ c.colors = omega arith in
    let g5 : (c.colors == 0 || ltb 256 c.colors) ≡ false = ground arith in
    let f2 : u32 (8 + (12 + c.colors * 2)) ≡ 20 + c.colors * 2 = omega arith in
    rw (hd.length_at, hd.x_at, hd.y_at, hd.w_at, hd.h_at, g1, g2, g3, g4, f1, g5, f2, sym v.off)
      refl

flag_mode : (m : ℕ) (has : Bool) → m ≤ 3 → (m + (if has then 8 else 0)) % 8 ≡ m
flag_mode m has h = ground arith

flag_clut : (m : ℕ) (has : Bool) → m ≤ 3 → leb 8 (m + (if has then 8 else 0)) ≡ has
flag_clut m has h = ground arith

flag_low : (m : ℕ) (has : Bool) → m ≤ 3 → leb (m + (if has then 8 else 0)) 0x0F ≡ true
flag_low m has h = ground arith

module _ (d : Bytes) (info : TimInfo) (v : IsImage info) where
  clut_parsed :
      (info.has_clut ≡ true
        → Header d 8 (12 + info.clut.colors * 2) info.clut.x info.clut.y info.clut.w info.clut.h)
      → clut_size info ≤ 524
      → clut_block d info.total_len 8 info.has_clut ≡ ok (info.clut, 8 + clut_size info)
  unfolding clut_block
  clut_parsed hd small = elim (Bool-cases info.has_clut) [
    | inl has ↦
        let wide : clut_size info ≡ 12 + info.clut.colors * 2 = rw has refl in
        let few = (v.clut has).colors in
        let pl = v.pixels in
        let at : 8 + clut_size info ≡ 20 + info.clut.colors * 2 = omega (arith, wide) in
        let parsed =
          clut_block-reads d info.total_len info.clut (hd has) (omega (arith, v.total, wide))
            (omega (arith, v.total, wide)) (v.clut has) in
        rw (at, has) parsed
    | inr bare ↦
        let none_there = v.plain bare in
        let size : clut_size info ≡ 0 = rw bare refl in rw (bare, none_there) refl
  ]

  pub tim_extent-reads :
      le32 d 0 ≡ 0x10
      → le32 d 4 ≡ info.mode + (if info.has_clut then 8 else 0)
      → Header d (8 + clut_size info) (info.pix_len + 12) info.orgx info.orgy info.w info.h
      → (info.has_clut ≡ true
          → Header d 8 (12 + info.clut.colors * 2) info.clut.x info.clut.y info.clut.w info.clut.h)
      → clut_size info ≤ 524
      → tim_extent d info.total_len 0 false ≡ ok info
  unfolding tim_extent
  tim_extent-reads magic_at flag_at image clut small =
      let pl = v.pixels in
      let room : leb 8 info.total_len ≡ true = le→leb _ _ (omega (arith, v.total)) in
      let low = flag_low info.mode info.has_clut v.mode in
      let mode = flag_mode info.mode info.has_clut v.mode in
      let has = flag_clut info.mode info.has_clut v.mode in
      let fits : leb info.mode 3 ≡ true = le→leb _ _ v.mode in
      let parsed =
        image_block-reads d info.total_len (8 + clut_size info) info image (omega (arith, v.total))
          (omega (arith, v.total)) v (omega (arith, v.pix_off)) (omega (arith, v.total)) in
      rw (room, magic_at, flag_at, low, mode, fits, has, clut_parsed clut small) parsed
