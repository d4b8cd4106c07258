-- ===== src/Tests/TimTests.antt =====
-- A slice of one 8-bit image with a CLUT of two colours, and a dictionary of two strings.
use gt2_recomp.Prelude.{
  ℕ, ◌+◌, ◌-◌, ◌<◌, ◌≤◌, ◌==◌, leb, if◌then◌else◌, ◌≡◌, refl, true, false, some, ok, err, List,
  arith, length, get_elem?,
}
use gt2_recomp.Bytes.{Bytes, zeros, put_u16, put_u32, times}
use gt2_recomp.Tim.{
  TimInfo, not_found, tim_extent, count, info_at, count_from, clut_block, image_block, clut_dims,
  image_dims, info_from, pix_w,
}
use gt2_recomp.Tim.Walks.{info_at-count}
use gt2_recomp.Tim.Encode.{encode, put_header}
use gt2_recomp.Tim.Encode.Reads.{IsImage}
use gt2_recomp.Tim.Encode.RoundTrip.{encoded, encode-tim_extent}
use gt2_recomp.Tim.Pixels.{decode, pixel_need, fill_rgb, pixel_of, pal_index, palette, expand15}
use gt2_recomp.Tim.Pixels.Decoded.{Decoded, decode-Decoded}
use gt2_recomp.Tim.Txd.{
  txd_count, txd_get, txd_count_from, txd_get_from, next_run, skip_nuls, run_end,
}
use gt2_recomp.Tim.Txd.Runs.{Runs, txd-Runs}

abbrev small_image : TimInfo
small_image = record {
  mode = 1;
  has_clut = true;
  clut = record { x = 0; y = 0; w = 2; h = 1; colors = 2; off = 20 };
  orgx = 0;
  orgy = 0;
  w = 1;
  h = 1;
  pix_off = 36;
  pix_len = 2;
  total_len = 38;
}

-- black and white
abbrev colours : Bytes
colours k = if leb 2 k then 0xFF else 0

abbrev pixels : Bytes
pixels k = k

small_image-IsImage : IsImage small_image
small_image-IsImage = record {
  mode = omega arith;
  coords = (omega arith, omega arith);
  dims = (omega arith, omega arith, omega arith, omega arith);
  clut = λ h. record {
    coords = (omega arith, omega arith);
    dims = (omega arith, omega arith, omega arith, omega arith);
    colors = (omega arith, omega arith);
    off = refl;
  };
  plain = λ h. cc h;
  pixels = omega arith;
  pix_off = refl;
  total = refl;
}

encode-tim_extent_example :
    (out : Bytes) × (encode small_image (some colours) (some pixels) true ≡ ok (out, 38))
    × (tim_extent out 38 0 false ≡ ok small_image)
    × ((k : ℕ) → k < 2 → out (36 + k) ≡ pixels k)
encode-tim_extent_example = encode-tim_extent small_image colours pixels small_image-IsImage

abbrev slice : Bytes
unfolding put_header put_u16 put_u32
slice = encoded small_image colours pixels

info_at-count_example :
    (n : ℕ) × (count slice 38 ≡ some n)
    × ((k : ℕ) → k < n → (info : TimInfo) × (info_at slice 38 k ≡ ok info))
    × ((k : ℕ) → n ≤ k → info_at slice 38 k ≡ err not_found)
info_at-count_example = info_at-count slice 38 (omega arith)

one_image : count slice 38 ≡ some 1
unfolding count count_from tim_extent clut_block image_block clut_dims image_dims put_header put_u16
    put_u32
one_image = refl

abbrev rgb : Bytes
unfolding decode
rgb = elim (decode slice 38 0 zeros true) [ ok (m, w, h) ↦ m | err e ↦ zeros ]

decodes : decode slice 38 0 zeros true ≡ ok (rgb, 2, 1)
unfolding decode info_at info_from tim_extent clut_block image_block clut_dims image_dims put_header
    put_u16 put_u32 pix_w pixel_need
decodes = refl

white : rgb 3 ≡ 255
unfolding decode info_at info_from tim_extent clut_block image_block clut_dims image_dims put_header
    put_u16 put_u32 pix_w pixel_need fill_rgb pixel_of pal_index palette expand15 times
white = refl

decode-Decoded_example : Decoded slice 38 0 rgb 2 1
decode-Decoded_example = decode-Decoded slice 38 0 zeros true rgb 2 1 (omega arith) decodes

-- NUL, "ab", two NULs, "c"
abbrev dictionary : Bytes
dictionary k = if k == 1 then 0x61 else if k == 2 then 0x62 else if k == 5 then 0x63 else 0

txd-Runs_example :
    (rs : List (ℕ × ℕ)) × Runs dictionary 6 0 rs
    × (txd_count dictionary 6 ≡ some (length rs))
    × ((i start stop : ℕ)
        → get_elem? rs i ≡ some (start, stop)
        → txd_get dictionary 6 i ≡ ok (start, stop - start))
    × ((i : ℕ) → length rs ≤ i → txd_get dictionary 6 i ≡ err not_found)
txd-Runs_example = txd-Runs dictionary 6 (omega arith)

second_string : txd_get dictionary 6 1 ≡ ok (5, 1)
unfolding txd_get txd_get_from next_run skip_nuls run_end
second_string = refl

two_strings : txd_count dictionary 6 ≡ some 2
unfolding txd_count txd_count_from next_run skip_nuls run_end
two_strings = refl
