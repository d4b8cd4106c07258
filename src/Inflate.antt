-- ===== src/Inflate.antt =====
-- zlib's inflate, which decomp/src/ovl/ovl.c and decomp/src/tim/tim.c call, as an interface, and the
-- documented behaviour that the theorems on them rely on.
use gt2_recomp.Prelude.{ℕ, ◌≤◌, ◌<◌, ◌≡◌, ◌⊎◌, Option, List, [], ◌++◌, length}
use gt2_recomp.Bytes.{Bytes}

-- Z_OK, Z_STREAM_END and the error codes
pub data Code : Type 0 where
  z_ok stream_end failed : Code

pub record Zlib : Type 1 where
  -- a z_stream
  pub Stream : Type 0
  -- inflateInit2 with its window bits, and next_in and avail_in set to the buffer and its size
  pub start : ℕ → Bytes → ℕ → Option Stream
  -- inflate with Z_NO_FLUSH and the given avail_out: the stream, the code, and the bytes written
  pub run : Stream → ℕ → Stream × (Code × List ℕ)
  -- how far next_in has moved
  pub used : Stream → ℕ

-- An intact stream writes what it still has to write in portions that fit the room given. Each call
-- that does not end it makes progress, and the call that ends it has written everything.
pub record Decodes (z : Zlib) : Type 1 where
  pub IsIntact : z.Stream → Type 0
  pub content : z.Stream → List ℕ
  pub work : z.Stream → ℕ
  pub fits : (s : z.Stream) (room : ℕ) → IsIntact s → length (z.run s room).1.1 ≤ room
  pub splits :
      (s : z.Stream) (room : ℕ)
      → IsIntact s
      → content s ≡ (z.run s room).1.1 ++ content (z.run s room).0
  pub goes_on :
      (s : z.Stream) (room : ℕ)
      → IsIntact s
      → 0 < room
      → (((z.run s room).1.0 ≡ stream_end) × (content (z.run s room).0 ≡ []))
        ⊎ (((z.run s room).1.0 ≡ z_ok)
            × IsIntact (z.run s room).0
            × (work (z.run s room).0 < work s))
