-- ===== src/Mcd/Store/Frame.antt =====
-- One round of the storing loop of gt2_mcd_write: the frame, the block, and everything else.
use gt2_recomp.Prelude.{
  ℕ, ◌+◌, ◌*◌, ◌^◌, ◌<◌, ◌≤◌, ◌≡◌, ◌⊎◌, ◌∙◌, Bool, true, false, List, [], ◌∷◌, arith, ◌==◌, inl,
  length,
}
use gt2_recomp.Bytes.{Bytes, write, copy, fill, put_u16, put_u32, le16, le32}
use gt2_recomp.Bytes.Laws.{
  copy_inside, copy_outside, put_u32_ne, put_u16_ne, le32-put_u32, le16-put_u16, le32_same,
  le16_same,
}
use gt2_recomp.Mcd.{frame_checksum}
use gt2_recomp.Mcd.Store.{chain_state, chain_next, frame_body, string_byte, store_round}

-- what a directory frame says of its block
pub record FrameSays (m : Bytes) (f state size next : ℕ) : Type 0 where
  pub state_at : le32 m f ≡ state
  pub size_at : le32 m (f + 4) ≡ size
  pub next_at : le16 m (f + 8) ≡ next

pub FrameSays-same :
    (a b : Bytes) (f state size next : ℕ)
    → ((c : ℕ) → c < 10 → a (f + c) ≡ b (f + c))
    → FrameSays b f state size next
    → FrameSays a f state size next
FrameSays-same a b f state size next h s = record {
  state_at = le32_same a b f (λ c lt. h c (omega arith)) ∙ s.state_at;
  size_at =
      le32_same a b (f + 4)
        (λ c lt. let e : f + 4 + c ≡ f + (4 + c) = omega arith in rw e (h (4 + c) (omega arith)))
      ∙ s.size_at;
  next_at =
      le16_same a b (f + 8)
        (λ c lt. let e : f + 8 + c ≡ f + (8 + c) = omega arith in rw e (h (8 + c) (omega arith)))
      ∙ s.next_at;
}

module _ (m : Bytes) (f state size next : ℕ) where
  abbrev blank : Bytes
  blank = write (fill m f 0 128) f state

  abbrev sized : Bytes
  sized = put_u32 blank (f + 4) size

  blank-state : state < 256 → le32 blank f ≡ state
  blank-state h = ground arith

  linked-FrameSays :
      state < 256
      → size < 2 ^ 32
      → next < 2 ^ 16
      → FrameSays (put_u16 sized (f + 8) next) f state size next
  linked-FrameSays a b c = record {
    state_at =
        le32_same (put_u16 sized (f + 8) next) sized f
          (λ k lt. put_u16_ne sized (f + 8) next (f + k) (inl (omega arith)))
        ∙ le32_same sized blank f
            (λ k lt. put_u32_ne blank (f + 4) size (f + k) (inl (omega arith)))
        ∙ blank-state a;
    size_at =
        le32_same (put_u16 sized (f + 8) next) sized (f + 4)
          (λ k lt. put_u16_ne sized (f + 8) next (f + 4 + k) (inl (omega arith)))
        ∙ le32-put_u32 blank (f + 4) size b;
    next_at = le16-put_u16 sized (f + 8) next c;
  }

  linked-kept : (x : ℕ) → (x < f) ⊎ (f + 128 ≤ x) → put_u16 sized (f + 8) next x ≡ m x
  linked-kept x h =
      put_u16_ne sized (f + 8) next x (omega arith)
      ∙ put_u32_ne blank (f + 4) size x (omega arith)
      ∙ ground arith

chain_state-lt : (first : Bool) (ps : List ℕ) → chain_state first ps < 256
unfolding chain_state
chain_state-lt true ps = omega arith
chain_state-lt false [] = omega arith
chain_state-lt false (p ∷ ps) = omega arith

chain_next-lt : (ps : List ℕ) → chain_next ps < 2 ^ 16
unfolding chain_next
chain_next-lt [] = omega arith
chain_next-lt (p ∷ ps) = omega arith

abbrev linked_of : Bytes → ℕ → Bool → List ℕ → ℕ → Bytes
linked_of m f first later size =
    put_u16 (put_u32 (write (fill m f 0 128) f (chain_state first later)) (f + 4) size) (f + 8)
      (chain_next later)

frame_body-FrameSays :
    (m : Bytes) (f : ℕ) (first : Bool) (later name : List ℕ) (size : ℕ)
    → size < 2 ^ 32
    → FrameSays
        (frame_body m f first later name size)
        f
        (chain_state first later)
        size
        (chain_next later)
unfolding frame_body
frame_body-FrameSays m f false later name size h =
    linked-FrameSays m f (chain_state false later) size (chain_next later)
      (chain_state-lt false later) h (chain_next-lt later)
frame_body-FrameSays m f true later name size h =
    let linked = linked_of m f true later size in
    FrameSays-same (copy linked (f + 10) (string_byte name) (length name + 1)) linked f
      (chain_state true later) size (chain_next later)
      (λ c lt.
        copy_outside linked (string_byte name) (f + 10) (length name + 1) (f + c)
          (inl (omega arith)))
      (linked-FrameSays m f (chain_state true later) size (chain_next later)
        (chain_state-lt true later) h (chain_next-lt later))

frame_body-kept :
    (m : Bytes) (f : ℕ) (first : Bool) (later name : List ℕ) (size x : ℕ)
    → length name ≤ 20
    → (x < f) ⊎ (f + 128 ≤ x)
    → frame_body m f first later name size x ≡ m x
unfolding frame_body
frame_body-kept m f false later name size x short h =
    linked-kept m f (chain_state false later) size (chain_next later) x h
frame_body-kept m f true later name size x short h =
    copy_outside (linked_of m f true later size) (string_byte name) (f + 10) (length name + 1) x
      (omega arith)
    ∙ linked-kept m f (chain_state true later) size (chain_next later) x h

frame_checksum-kept :
    (m : Bytes) (f x : ℕ) → (x < f + 0x7F) ⊎ (f + 128 ≤ x) → frame_checksum m f x ≡ m x
unfolding frame_checksum
frame_checksum-kept m f x h = ground arith

-- what one round leaves
pub record Round (m : Bytes) (f k p state next : ℕ) (data_ptr : Bytes) (size : ℕ) (out : Bytes)
    : Type 0 where
  pub says : FrameSays out ((1 + f) * 128) state size next
  pub block : (j : ℕ) → j < 8192 → out (p * 8192 + j) ≡ data_ptr (k * 8192 + j)
  pub kept :
      (x : ℕ)
      → (x < (1 + f) * 128) ⊎ ((1 + f) * 128 + 128 ≤ x)
      → (x < p * 8192) ⊎ (p * 8192 + 8192 ≤ x)
      → out x ≡ m x

-- A round writes its frame and its block, and keeps every other byte.
pub store_round-Round :
    (m : Bytes) (f k p : ℕ) (later name : List ℕ) (data_ptr : Bytes) (size : ℕ)
    → f < 15
    → 1 ≤ p
    → length name ≤ 20
    → size < 2 ^ 32
    → Round m f k p
        (chain_state (k == 0) later)
        (chain_next later)
        data_ptr
        size
        (store_round m f k p later name data_ptr size)
unfolding store_round
store_round-Round m f k p later name data_ptr size few lo short small =
    let at = (1 + f) * 128 in
    let body = frame_body m at (k == 0) later name size in
    let framed = frame_checksum body at in
    let src : Bytes = λ j. data_ptr (k * 8192 + j) in
    record {
      says =
          FrameSays-same (copy framed (p * 8192) src 8192) body at (chain_state (k == 0) later) size
            (chain_next later)
            (λ c lt.
              copy_outside framed src (p * 8192) 8192 (at + c) (inl (omega arith))
              ∙ frame_checksum-kept body at (at + c) (inl (omega arith)))
            (frame_body-FrameSays m at (k == 0) later name size small);
      block = λ j lt. copy_inside framed src (p * 8192) 8192 j lt;
      kept = λ x a b.
          copy_outside framed src (p * 8192) 8192 x b
          ∙ frame_checksum-kept body at x (omega arith)
          ∙ frame_body-kept m at (k == 0) later name size x short a;
    }
