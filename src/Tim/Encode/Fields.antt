-- ===== src/Tim/Encode/Fields.antt =====
-- The header fields that the encoder writes, read back.
use gt2_recomp.Prelude.{ℕ, ◌+◌, ◌^◌, ◌<◌, ◌≤◌, ◌≡◌, ◌∙◌, arith, ◌⊎◌, inl}
use gt2_recomp.Bytes.{Bytes, put_u16, put_u32, le16, le32}
use gt2_recomp.Bytes.Laws.{le32-put_u32, put_u32_ne, le32_same, le16_same, put_u16_ne, le16-put_u16}
use gt2_recomp.Tim.Encode.{put_header}

-- a half above leaves a word or a half below it
below_word : (m : Bytes) (o q v : ℕ) → o + 4 ≤ q → le32 (put_u16 m q v) o ≡ le32 m o
below_word m o q v h =
    le32_same (put_u16 m q v) m o (λ c lt. put_u16_ne m q v (o + c) (inl (omega arith)))

below_half : (m : Bytes) (o q v : ℕ) → o + 2 ≤ q → le16 (put_u16 m q v) o ≡ le16 m o
below_half m o q v h =
    le16_same (put_u16 m q v) m o (λ c lt. put_u16_ne m q v (o + c) (inl (omega arith)))

-- a block header reads as its length and its four halves
pub record Header (m : Bytes) (p size x y w h : ℕ) : Type 0 where
  pub length_at : le32 m p ≡ size
  pub x_at : le16 m (p + 4) ≡ x
  pub y_at : le16 m (p + 6) ≡ y
  pub w_at : le16 m (p + 8) ≡ w
  pub h_at : le16 m (p + 10) ≡ h

module _ (b : Bytes) (p size x y w h : ℕ) where
  abbrev with_size : Bytes
  with_size = put_u32 b p size

  abbrev with_x : Bytes
  with_x = put_u16 with_size (p + 4) x

  abbrev with_y : Bytes
  with_y = put_u16 with_x (p + 6) y

  abbrev with_w : Bytes
  with_w = put_u16 with_y (p + 8) w

  pub put_header-Header :
      size < 2 ^ 32
      → x < 2 ^ 16
      → y < 2 ^ 16
      → w < 2 ^ 16
      → h < 2 ^ 16
      → Header (put_header b p size x y w h) p size x y w h
  unfolding put_header
  put_header-Header hs hx hy hw hh = record {
    length_at =
        below_word with_w p (p + 10) h (omega arith)
        ∙ below_word with_y p (p + 8) w (omega arith)
        ∙ below_word with_x p (p + 6) y (omega arith)
        ∙ below_word with_size p (p + 4) x (omega arith)
        ∙ le32-put_u32 b p size hs;
    x_at =
        below_half with_w (p + 4) (p + 10) h (omega arith)
        ∙ below_half with_y (p + 4) (p + 8) w (omega arith)
        ∙ below_half with_x (p + 4) (p + 6) y (omega arith)
        ∙ le16-put_u16 with_size (p + 4) x hx;
    y_at =
        below_half with_w (p + 6) (p + 10) h (omega arith)
        ∙ below_half with_y (p + 6) (p + 8) w (omega arith)
        ∙ le16-put_u16 with_x (p + 6) y hy;
    w_at = below_half with_w (p + 8) (p + 10) h (omega arith) ∙ le16-put_u16 with_y (p + 8) w hw;
    h_at = le16-put_u16 with_w (p + 10) h hh;
  }

  pub put_header-kept : (k : ℕ) → (k < p) ⊎ (p + 12 ≤ k) → put_header b p size x y w h k ≡ b k
  unfolding put_header
  put_header-kept k o =
      put_u16_ne with_w (p + 10) h k (ground arith)
      ∙ put_u16_ne with_y (p + 8) w k (ground arith)
      ∙ put_u16_ne with_x (p + 6) y k (ground arith)
      ∙ put_u16_ne with_size (p + 4) x k (ground arith)
      ∙ put_u32_ne b p size k (ground arith)

-- bytes that agree on the header agree on its fields
pub Header-same :
    (a b : Bytes) (p size x y w h : ℕ)
    → ((c : ℕ) → c < 12 → a (p + c) ≡ b (p + c))
    → Header b p size x y w h
    → Header a p size x y w h
Header-same a b p size x y w h same r = record {
  length_at = le32_same a b p (λ c lt. same c (omega arith)) ∙ r.length_at;
  x_at = half 4 (omega arith) ∙ r.x_at;
  y_at = half 6 (omega arith) ∙ r.y_at;
  w_at = half 8 (omega arith) ∙ r.w_at;
  h_at = half 10 (omega arith) ∙ r.h_at;
}
  where
    half : (o : ℕ) → o ≤ 10 → le16 a (p + o) ≡ le16 b (p + o)
    half o le =
        le16_same a b (p + o) (λ c lt.
          let e : p + o + c ≡ p + (o + c) = omega arith in rw e (same (o + c) (omega arith)))
