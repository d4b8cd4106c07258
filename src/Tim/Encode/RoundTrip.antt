-- ===== src/Tim/Encode/RoundTrip.antt =====
-- An encoded image parses back.
use gt2_recomp.Prelude.{
  ℕ, zero, suc, ◌+◌, ◌*◌, ◌<◌, ◌≤◌, ◌≡◌, refl, ap, ◌∙◌, Bool, true, false, some, ok, arith, le→leb,
  if◌then◌else◌, Bool-cases, inl, inr, bit_or,
}
use gt2_recomp.Bytes.{Bytes, zeros, copy, put_u32, le32, u32}
use gt2_recomp.Bytes.Laws.{copy_inside, copy_outside, le32-put_u32, le32_same}
use gt2_recomp.Tim.{TimInfo, tim_extent}
use gt2_recomp.Tim.Encode.{put_header, put_clut, pixels_of, clut_part, encode}
use gt2_recomp.Tim.Encode.Fields.{Header, Header-same, put_header-Header, put_header-kept}
use gt2_recomp.Tim.Encode.Reads.{clut_size, IsImage, tim_extent-reads}

abbrev flag_of : TimInfo → ℕ
flag_of info = bit_or info.mode (if info.has_clut then 8 else 0)

flag_value :
    (m : ℕ) (has : Bool) → m ≤ 3 → bit_or m (if has then 8 else 0) ≡ m + (if has then 8 else 0)
flag_value zero true h = refl
flag_value zero false h = refl
flag_value (suc zero) true h = refl
flag_value (suc zero) false h = refl
flag_value (suc (suc zero)) true h = refl
flag_value (suc (suc zero)) false h = refl
flag_value (suc (suc (suc zero))) true h = refl
flag_value (suc (suc (suc zero))) false h = refl
flag_value (suc (suc (suc (suc m)))) has h = absurd (omega arith)

abbrev head_of : TimInfo → Bytes
head_of info = put_u32 (put_u32 zeros 0 0x10) 4 (flag_of info)

abbrev start_of : TimInfo → ℕ
start_of info = 8 + clut_size info

abbrev base_of : TimInfo → Bytes → Bytes
base_of info clut =
    if info.has_clut
    then put_clut (head_of info) info.clut (12 + info.clut.colors * 2) clut
    else head_of info

abbrev headed : TimInfo → Bytes → Bytes
headed info clut =
    put_header (base_of info clut) (start_of info) (info.pix_len + 12) info.orgx info.orgy info.w
      info.h

-- the encoded block
abbrev pub encoded : TimInfo → Bytes → Bytes → Bytes
encoded info clut pix = copy (headed info clut) (start_of info + 12) pix info.pix_len

module _ (info : TimInfo) (clut pix : Bytes) (v : IsImage info) where
  clut_small : clut_size info ≤ 524
  clut_small = elim (Bool-cases info.has_clut) [
    | inl has ↦ let c = (v.clut has).colors in rw has (omega (arith, c))
    | inr bare ↦ rw bare (omega arith)
  ]

  encode-encoded :
      encode info (some clut) (some pix) true ≡ ok (encoded info clut pix, info.total_len)
  unfolding encode pixels_of clut_part
  encode-encoded =
      let pl = v.pixels in
      let m = le→leb info.mode 3 v.mode in
      let i : u32 (12 + info.pix_len) ≡ info.pix_len + 12 = omega arith in
      elim (Bool-cases info.has_clut) [
        | inl has ↦
            let c = (v.clut has).colors in
            let size : clut_size info ≡ 12 + info.clut.colors * 2 = rw has refl in
            let a : u32 (12 + info.clut.colors * 2) ≡ 12 + info.clut.colors * 2 = omega arith in
            let b : u32 (8 + (12 + info.clut.colors * 2)) ≡ 8 + (12 + info.clut.colors * 2) =
              omega arith in
            let t : u32 (8 + (12 + info.clut.colors * 2) + (info.pix_len + 12)) ≡ info.total_len =
              omega (arith, v.total, size) in
            rw (m, has, a, b, i, t) refl
        | inr bare ↦
            let size : clut_size info ≡ 0 = rw bare refl in
            let t : u32 (8 + (info.pix_len + 12)) ≡ info.total_len = omega (arith, v.total, size) in
            rw (m, bare, i, t) refl
      ]

  kept_below : (k : ℕ) → k < start_of info → encoded info clut pix k ≡ base_of info clut k
  kept_below k h =
      copy_outside (headed info clut) pix (start_of info + 12) info.pix_len k (inl (omega arith))
      ∙ put_header-kept (base_of info clut) (start_of info) (info.pix_len + 12) info.orgx info.orgy
          info.w info.h k (inl h)

  head_kept : (k : ℕ) → k < 8 → encoded info clut pix k ≡ head_of info k
  head_kept k h = kept_below k (omega arith) ∙ (elim (Bool-cases info.has_clut) [
    | inr bare ↦
        let base : base_of info clut ≡ head_of info = rw bare refl in ap (λ (b : Bytes). b k) base
    | inl has ↦
        let c = info.clut in
        let size = 12 + c.colors * 2 in
        let block = put_header (head_of info) 8 size c.x c.y c.w c.h in
        let base : base_of info clut ≡ put_clut (head_of info) c size clut = rw has refl in
        ap (λ (b : Bytes). b k) base
        ∙ copy_outside block clut 20 (u32 (c.colors * 2)) k (inl (omega arith))
        ∙ put_header-kept (head_of info) 8 size c.x c.y c.w c.h k (inl h)
  ])

  image-Header :
      Header
        (encoded info clut pix)
        (start_of info)
        (info.pix_len + 12)
        info.orgx
        info.orgy
        info.w
        info.h
  image-Header =
      let pl = v.pixels in
      let d = v.dims in
      Header-same (encoded info clut pix) (headed info clut) (start_of info) (info.pix_len + 12)
        info.orgx info.orgy info.w info.h
        (λ c lt.
          copy_outside (headed info clut) pix (start_of info + 12) info.pix_len (start_of info + c)
            (inl (omega arith)))
        (put_header-Header (base_of info clut) (start_of info) (info.pix_len + 12) info.orgx
          info.orgy info.w info.h (omega arith) v.coords.0 v.coords.1 (omega arith) (omega arith))

  clut-Header :
      info.has_clut ≡ true
      → Header
          (encoded info clut pix)
          8
          (12 + info.clut.colors * 2)
          info.clut.x
          info.clut.y
          info.clut.w
          info.clut.h
  clut-Header has =
      let c = info.clut in
      let size = 12 + c.colors * 2 in
      let ok_clut = v.clut has in
      let few = ok_clut.colors in
      let dims = ok_clut.dims in
      let block = put_header (head_of info) 8 size c.x c.y c.w c.h in
      let base : base_of info clut ≡ put_clut (head_of info) c size clut = rw has refl in
      let wide : clut_size info ≡ size = rw has refl in
      Header-same (encoded info clut pix) block 8 size c.x c.y c.w c.h
        (λ k lt.
          kept_below (8 + k) (omega (arith, wide))
          ∙ ap (λ (b : Bytes). b (8 + k)) base
          ∙ copy_outside block clut 20 (u32 (c.colors * 2)) (8 + k) (inl (omega arith)))
        (put_header-Header (head_of info) 8 size c.x c.y c.w c.h (omega arith) ok_clut.coords.0
          ok_clut.coords.1 (omega arith) (omega arith))

  magic_at : le32 (encoded info clut pix) 0 ≡ 0x10
  unfolding put_u32
  magic_at =
      le32_same (encoded info clut pix) (head_of info) 0 (λ c lt. head_kept (0 + c) (omega arith))
      ∙ refl

  flag_at : le32 (encoded info clut pix) 4 ≡ flag_of info
  flag_at =
      let f = flag_value info.mode info.has_clut v.mode in
      let small = v.mode in
      le32_same (encoded info clut pix) (head_of info) 4 (λ c lt. head_kept (4 + c) (omega arith))
      ∙ le32-put_u32 (put_u32 zeros 0 0x10) 4 (flag_of info) (ground (arith, f, small))

  extent_parsed : tim_extent (encoded info clut pix) info.total_len 0 false ≡ ok info
  extent_parsed =
      let pl = v.pixels in
      tim_extent-reads (encoded info clut pix) info v magic_at
        (flag_at ∙ flag_value info.mode info.has_clut v.mode) image-Header clut-Header clut_small

-- An encoded image reads back: the parser returns the same description for it, as the only thing in the
-- slice, and the pixels stand where the description says.
pub encode-tim_extent :
    (info : TimInfo) (clut pix : Bytes)
    → IsImage info
    → (out : Bytes) × (encode info (some clut) (some pix) true ≡ ok (out, info.total_len))
      × (tim_extent out info.total_len 0 false ≡ ok info)
      × ((k : ℕ) → k < info.pix_len → out (info.pix_off + k) ≡ pix k)
encode-tim_extent info clut pix v = (
  encoded info clut pix,
  encode-encoded info clut pix v,
  extent_parsed info clut pix v,
  λ k h.
      let e : info.pix_off + k ≡ start_of info + 12 + k = omega (arith, v.pix_off) in
      rw e (copy_inside (headed info clut) pix (start_of info + 12) info.pix_len k h),
)
