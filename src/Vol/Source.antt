-- ===== src/Vol/Source.antt =====
-- What the two backends hold, and what read_at returns of it.
use gt2_recomp.Prelude.{
  ℕ, ◌+◌, ◌-◌, ◌^◌, ◌<◌, ◌≤◌, ◌≡◌, refl, sym, ap, ◌∙◌, Bool, true, false, Option, some, ok, arith,
  ltb, Bool-cases, inl, inr, Bool-cases, lt→ltb, le→leb, ge→ltb, ◌==◌,
}
use mathlib.Core.Option.{get_or}
use gt2_recomp.Bytes.{Bytes, zeros, u32, copy}
use gt2_recomp.Bytes.Laws.{copy_front}
use gt2_recomp.Cd.{Cd, pread as cd_pread}
use gt2_recomp.Cd.Pread.{cooked, Filled, Readable, pread-Filled, pread_sound}
use gt2_recomp.Vol.{Backend, image, blob, vol_base, read_at, Vol, read_abs, read_range, file_range}

-- the byte at an offset from the start of the volume
unfoldable pub src : Backend → ℕ → ℕ
src (image cd) x = cooked cd (vol_base + x)
src (blob m size) x = m x

-- the range lies in the backend: every sector can be read, or the blob is long enough
abbrev pub Present : Backend → ℕ → ℕ → Type 0
Present (image cd) off len = Readable cd (vol_base + off) len
Present (blob m size) off len = off + len ≤ size

-- `w` starts with the `len` bytes of the volume at `off`
abbrev pub Window : Backend → ℕ → ℕ → Bytes → Type 0
Window b off len w = (k : ℕ) → k < len → w k ≡ src b (off + k)

image-Window :
    (cd : Cd) (off len : ℕ) (w : Bytes)
    → vol_base + off + len ≤ 2 ^ 32
    → Filled cd (u32 (vol_base + off)) len zeros 0 w
    → Window (image cd) off len w
unfolding src
image-Window cd off len w h f k lt =
    let a : 0 + k ≡ k = omega arith in
    let b : u32 (vol_base + off) + k ≡ vol_base + (off + k) = omega arith in
    rw (a, b) at (f.inside k lt)

image_read :
    (cd : Cd) (off len : ℕ) (w : Bytes)
    → read_at (image cd) off len ≡ some w
    → cd_pread cd (u32 (vol_base + off)) zeros len ≡ ok w
unfolding read_at
image_read cd off len w e = ground arith

blob_read :
    (m : Bytes) (size off len k : ℕ) (w : Bytes)
    → read_at (blob m size) off len ≡ some w
    → k < len
    → w k ≡ m (off + k)
unfolding read_at
blob_read m size off len k w e lt = elim (Bool-cases (ltb size (off + len))) [
  | inl short ↦ cc (rw short at e)
  | inr fits ↦
      let q : some (copy zeros 0 (λ j. m (off + j)) len) ≡ some w = rw fits at e in
      ap (λ (o : Option Bytes). get_or o zeros k) (sym q)
      ∙ copy_front zeros (λ j. m (off + j)) len k lt
]

-- What read_at returns is what the volume holds there.
pub read_at-Window :
    (b : Backend) (off len : ℕ) (w : Bytes)
    → vol_base + off + len ≤ 2 ^ 32
    → read_at b off len ≡ some w
    → Window b off len w
read_at-Window (image cd) off len w h e =
    image-Window cd off len w h
      (pread_sound cd (u32 (vol_base + off)) len zeros w (omega arith) (image_read cd off len w e))
read_at-Window (blob m size) off len w h e = unfold src in λ k lt. blob_read m size off len k w e lt

image_ok :
    (cd : Cd) (off len : ℕ) (w : Bytes)
    → cd_pread cd (u32 (vol_base + off)) zeros len ≡ ok w
    → read_at (image cd) off len ≡ some w
unfolding read_at
image_ok cd off len w e = ground arith

-- A range that is present is read.
pub read_at-total :
    (b : Backend) (off len : ℕ)
    → vol_base + off + len ≤ 2 ^ 32
    → Present b off len
    → (w : Bytes) × (read_at b off len ≡ some w)
unfolding read_at
read_at-total (image cd) off len h p =
    let (w, e, f) =
      pread-Filled cd (u32 (vol_base + off)) len zeros (omega arith)
        (λ x q r. p x (omega arith) (omega arith)) in
    (w, image_ok cd off len w e)
read_at-total (blob m size) off len h p =
    (copy zeros 0 (λ j. m (off + j)) len, rw (ge→ltb size (off + len) p) refl)

-- The volume's offset table keeps every file inside a 32-bit image.
pub record FitsImage (v : Vol) : Type 0 where
  pub within : (i : ℕ) → i ≤ v.data_count → vol_base + v.tbl i ≤ 2 ^ 32 - 1

-- `size` bytes of `buf` are those of the file with table index `i`
pub record HoldsFile (v : Vol) (i : ℕ) (buf : Bytes) (size : ℕ) : Type 0 where
  pub indexed : i < v.data_count
  pub ordered : v.tbl i ≤ v.tbl (i + 1)
  pub sized : size ≡ v.tbl (i + 1) - v.tbl i
  pub bytes : (k : ℕ) → k < size → buf k ≡ src v.backend (v.tbl i + k)

pub file_range-ok :
    (v : Vol) (i : ℕ) (off size : ℕ)
    → file_range v i ≡ ok (off, size)
    → (i < v.data_count)
      × (v.tbl i ≤ v.tbl (i + 1))
      × (off ≡ u32 (vol_base + v.tbl i))
      × (size ≡ v.tbl (i + 1) - v.tbl i)
unfolding file_range
file_range-ok v i off size h = ground arith

pub file_range-total :
    (v : Vol) (i : ℕ)
    → i < v.data_count
    → v.tbl i ≤ v.tbl (i + 1)
    → file_range v i ≡ ok (u32 (vol_base + v.tbl i), v.tbl (i + 1) - v.tbl i)
unfolding file_range
file_range-total v i h o = rw (lt→ltb i v.data_count h, le→leb (v.tbl i) (v.tbl (i + 1)) o) refl

read_range-size :
    (v : Vol) (granted : Bool) (off size out : ℕ) (buf : Bytes)
    → read_range v granted (off, size) ≡ ok (buf, out)
    → out ≡ size
unfolding read_range
read_range-size v granted off size out buf h = ground arith

read_range-buf :
    (v : Vol) (granted : Bool) (off size out : ℕ) (buf : Bytes)
    → read_range v granted (off, size) ≡ ok (buf, out)
    → 0 < size
    → read_abs v off size ≡ some buf
unfolding read_range
read_range-buf v granted off size out buf h p = ground arith

pub read_abs-Window :
    (v : Vol) (x len : ℕ) (buf : Bytes)
    → vol_base + x + len ≤ 2 ^ 32
    → read_abs v (vol_base + x) len ≡ some buf
    → Window v.backend x len buf
unfolding read_abs
read_abs-Window v x len buf h e =
    let t : ltb (vol_base + x) vol_base ≡ false = ge→ltb (vol_base + x) vol_base (omega arith) in
    let a : vol_base + x - vol_base ≡ x = omega arith in
    read_at-Window v.backend x len buf h (rw (t, a) at e)

-- What a range read returns is what the volume holds there.
pub read_range-Window :
    (v : Vol) (granted : Bool) (x size out : ℕ) (buf : Bytes)
    → vol_base + x + size ≤ 2 ^ 32 - 1
    → read_range v granted (u32 (vol_base + x), size) ≡ ok (buf, out)
    → Window v.backend x size buf
read_range-Window v granted x size out buf h e k lt =
    let place : u32 (vol_base + x) ≡ vol_base + x = omega arith in
    read_abs-Window v x size buf (omega arith)
      (rw place at (read_range-buf v granted (u32 (vol_base + x)) size out buf e (omega arith))) k
      lt

-- What a range read returns for a table index is the file, whole.
pub read_range-HoldsFile :
    (v : Vol) (granted : Bool) (i out : ℕ) (range : ℕ × ℕ) (buf : Bytes)
    → FitsImage v
    → file_range v i ≡ ok range
    → read_range v granted range ≡ ok (buf, out)
    → HoldsFile v i buf out
read_range-HoldsFile v granted i out (off, size) buf fits r h =
    let (idx, ord, o, s) = file_range-ok v i off size r in
    let top = fits.within (i + 1) (omega arith) in
    let z : out ≡ size = read_range-size v granted off size out buf h in
    record {
      indexed = idx;
      ordered = ord;
      sized = z ∙ s;
      bytes = λ k lt.
          read_range-Window v granted (v.tbl i) size out buf (omega arith) (rw o at h) k
            (omega arith);
    }

-- A present range is read, if memory is granted.
pub read_range-total :
    (v : Vol) (x size : ℕ)
    → vol_base + x + size ≤ 2 ^ 32 - 1
    → Present v.backend x size
    → (buf : Bytes) × (read_range v true (u32 (vol_base + x), size) ≡ ok (buf, size))
unfolding read_range read_abs
read_range-total v x size h p =
    let (w, e) = read_at-total v.backend x size (omega arith) p in
    let place : u32 (vol_base + x) ≡ vol_base + x = omega arith in
    let t = ge→ltb (vol_base + x) vol_base (omega arith) in
    let a : vol_base + x - vol_base ≡ x = omega arith in
    elim (Bool-cases (size == 0)) [
      | inl none_to_read ↦ (λ k. 0, rw none_to_read refl)
      | inr some_to_read ↦ (w, rw (place, some_to_read, t, a, e) refl)
    ]
