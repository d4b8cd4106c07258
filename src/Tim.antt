-- ===== src/Tim.antt =====
-- TIM images and the TXD dictionary, decomp/src/tim/tim.c: the header parser and the walks over a
-- chain of images. Pixels are in Tim/Pixels.antt, the encoder in Tim/Encode.antt, TXD in Tim/Txd.antt.
pub mod Join
pub mod Extent
pub mod Walks
pub mod Encode
pub mod Pixels
pub mod Txd
use gt2_recomp.Prelude.{
  ℕ, zero, suc, ◌+◌, ◌-◌, ◌*◌, ◌/◌, ◌%◌, ◌^◌, Bool, true, false, ◌&&◌, ◌||◌, not, Option, none,
  some, Outcome, ok, err, ◌>>=◌, ◌>>◌, guard, ltb, leb, ◌==◌, if◌then◌else◌,
}
use gt2_recomp.Bytes.{Bytes, le16, le32, u32, sub32}

-- gt2_tim_status_t without its OK
pub data TimStatus : Type 0 where
  io magic mode_err truncated no_mem not_found inval : TimStatus

-- the clut fields of gt2_tim_info_t
pub record Clut : Type 0 where
  pub x : ℕ
  pub y : ℕ
  pub w : ℕ
  pub h : ℕ
  pub colors : ℕ
  pub off : ℕ

-- gt2_tim_info_t
pub record TimInfo : Type 0 where
  pub mode : ℕ
  pub has_clut : Bool
  pub clut : Clut
  pub orgx : ℕ
  pub orgy : ℕ
  pub w : ℕ
  pub h : ℕ
  pub pix_off : ℕ
  pub pix_len : ℕ
  pub total_len : ℕ

-- the zeroed fields of an image without a CLUT
abbrev pub no_clut : Clut
no_clut = record { x = 0; y = 0; w = 0; h = 0; colors = 0; off = 0 }

unfoldable pub clut_dims : ℕ → ℕ → Bool
clut_dims w h = not (w == 0 || h == 0 || ltb 256 w || ltb 256 h)

-- the CLUT block at `p`, and where the image block starts
unfoldable pub clut_block : Bytes → ℕ → ℕ → Bool → Outcome TimStatus (Clut × ℕ)
clut_block data_ptr len p false = ok (no_clut, p)
clut_block data_ptr len p true = do
  guard (leb (u32 (p + 12)) len) truncated
  let clen = le32 data_ptr p
  guard (leb 12 clen && leb (u32 (p + clen)) len) truncated
  guard (clut_dims (le16 data_ptr (p + 8)) (le16 data_ptr (p + 10))) mode_err
  guard (not ((clen - 12) / 2 == 0 || ltb 256 ((clen - 12) / 2))) mode_err
  ok (
    record {
      x = le16 data_ptr (p + 4);
      y = le16 data_ptr (p + 6);
      w = le16 data_ptr (p + 8);
      h = le16 data_ptr (p + 10);
      colors = (clen - 12) / 2;
      off = u32 (p + 12);
    },
    u32 (p + clen),
  )

unfoldable pub image_dims : ℕ → ℕ → Bool
image_dims w h = not (w == 0 || h == 0 || ltb 1024 w || ltb 1024 h)

-- the image block at `p` of the TIM at `off`
unfoldable pub image_block : Bytes → ℕ → ℕ → Bool → ℕ → Bool → Clut × ℕ → Outcome TimStatus TimInfo
image_block data_ptr len off overshoot mode has_clut (clut, p) = do
  guard (leb (u32 (p + 12)) len) truncated
  let ilen = le32 data_ptr p
  guard (leb 12 ilen) truncated
  guard (image_dims (le16 data_ptr (p + 8)) (le16 data_ptr (p + 10))) mode_err
  guard (leb (u32 (p + 12)) len && (overshoot || leb (u32 (p + ilen)) len)) truncated
  guard (leb ilen (2 ^ 24)) truncated
  ok (record {
    mode = mode;
    has_clut = has_clut;
    clut = clut;
    orgx = le16 data_ptr (p + 4);
    orgy = le16 data_ptr (p + 6);
    w = le16 data_ptr (p + 8);
    h = le16 data_ptr (p + 10);
    pix_off = u32 (p + 12);
    pix_len = ilen - 12;
    total_len = u32 (sub32 p off + ilen);
  })

-- tim_extent
unfoldable pub tim_extent : Bytes → ℕ → ℕ → Bool → Outcome TimStatus TimInfo
tim_extent data_ptr len off overshoot = do
  guard (leb (u32 (off + 8)) len) truncated
  guard (le32 data_ptr off == 0x10) magic
  let flag = le32 data_ptr (off + 4)
  guard (leb flag 0x0F) mode_err
  guard (leb (flag % 8) 3) mode_err
  clut ← clut_block data_ptr len (u32 (off + 8)) (leb 8 flag)
  image_block data_ptr len off overshoot (flag % 8) (leb 8 flag) clut

-- gt2_tim_validate
unfoldable pub validate : Bytes → ℕ → ℕ → Bool → Outcome TimStatus TimInfo
validate data_ptr len off overshoot = do
  guard (ltb off len) truncated
  tim_extent data_ptr len off overshoot

-- The loop of gt2_tim_count: how many images follow from `off` on. `none` is a loop that has not ended
-- after the given rounds; a round passes 20 bytes at least.
unfoldable pub count_from : ℕ → Bytes → ℕ → ℕ → Option ℕ
count_from zero data_ptr len off = none
count_from (suc fuel) data_ptr len off =
    if leb len off then some 0 else elim (tim_extent data_ptr len off false) [
      | err e ↦ some 0
      | ok info ↦
          if info.total_len == 0
          then some 0
          else elim (count_from fuel data_ptr len (u32 (off + info.total_len))) [
            | none ↦ none
            | some n ↦ some (suc n)
          ]
    ]

-- gt2_tim_count
unfoldable pub count : Bytes → ℕ → Option ℕ
unfolding count_from
count data_ptr len = count_from (len + 1) data_ptr len 0

-- The loop of gt2_tim_info, with `index` images still to pass.
unfoldable pub info_from : Bytes → ℕ → ℕ → ℕ → Outcome TimStatus TimInfo
info_from data_ptr len off zero = elim (tim_extent data_ptr len off false) [
  | err e ↦ err not_found
  | ok info ↦ ok info
]
info_from data_ptr len off (suc index) = elim (tim_extent data_ptr len off false) [
  | err e ↦ err not_found
  | ok info ↦ info_from data_ptr len (u32 (off + info.total_len)) index
]

-- gt2_tim_info
unfoldable pub info_at : Bytes → ℕ → ℕ → Outcome TimStatus TimInfo
unfolding info_from
info_at data_ptr len index = info_from data_ptr len 0 index

-- gt2_tim_pix_w
unfoldable pub pix_w : TimInfo → ℕ
pix_w info = if info.mode == 0 then info.w * 4 else if info.mode == 1 then info.w * 2 else info.w

-- The loop of gt2_logo_find_tim, `n` offsets of four bytes from `off` on.
unfoldable pub logo_from : ℕ → Bytes → ℕ → ℕ → Outcome TimStatus ℕ
logo_from zero data_ptr len off = err not_found
logo_from (suc n) data_ptr len off =
    let rest = logo_from n data_ptr len (u32 (off + 4)) in
    if ltb len (u32 (off + 20)) then err not_found else elim (tim_extent data_ptr len off true) [
      | err e ↦ rest
      | ok info ↦ if info.has_clut then ok off else rest
    ]

-- gt2_logo_find_tim
unfoldable pub logo_find_tim : Bytes → ℕ → Outcome TimStatus ℕ
unfolding logo_from
logo_find_tim data_ptr len = logo_from (len / 4 + 1) data_ptr len 0
