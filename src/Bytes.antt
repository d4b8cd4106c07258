-- ===== src/Bytes.antt =====
-- C buffers of bytes, and the memcpy, memset and little-endian accessors that the sources use
-- (decomp/include/gt2/types.h and the static put_u16, put_u32 of decomp/src/task/task.c).
pub mod Laws
pub mod Rounds
use gt2_recomp.Prelude.{
  ℕ, zero, suc, ◌+◌, ◌-◌, ◌*◌, ◌/◌, ◌%◌, ◌^◌, Bool, true, false, ◌&&◌, List, [], ◌∷◌, ltb, leb,
  ◌==◌, if◌then◌else◌,
}

-- A buffer gives the byte at each offset. Where a source buffer ends is a number beside it.
abbrev pub Bytes : Type 0
Bytes = ℕ → ℕ

abbrev pub zeros : Bytes
zeros = λ k. 0

abbrev pub u8 : ℕ → ℕ
u8 x = x % 256

abbrev pub u16 : ℕ → ℕ
u16 x = x % 2 ^ 16

abbrev pub u32 : ℕ → ℕ
u32 x = x % 2 ^ 32

-- u32 subtraction wraps
abbrev pub sub32 : ℕ → ℕ → ℕ
sub32 a b = (a + 2 ^ 32 - b) % 2 ^ 32

-- x & ~0x7FF
abbrev pub sector_floor : ℕ → ℕ
sector_floor x = x / 2048 * 2048

-- the sign of a 16-bit and of a 32-bit word
abbrev pub neg16 : ℕ → Bool
neg16 v = leb 0x8000 v

abbrev pub neg32 : ℕ → Bool
neg32 v = leb (2 ^ 31) v

-- (s32)(s16)v
abbrev pub sext16 : ℕ → ℕ
sext16 v = if neg16 v then v + 0xFFFF0000 else v

-- a < b as signed 32-bit words
abbrev pub slt32 : ℕ → ℕ → Bool
slt32 a b = ltb (u32 (a + 2 ^ 31)) (u32 (b + 2 ^ 31))

-- p[o] = v
abbrev pub write : Bytes → ℕ → ℕ → Bytes
write m o v k = if k == o then v else m k

-- memcpy(m + o, src, len)
abbrev pub copy : Bytes → ℕ → Bytes → ℕ → Bytes
copy m o src len k = if leb o k && ltb k (o + len) then src (k - o) else m k

-- memset(m + o, v, len)
abbrev pub fill : Bytes → ℕ → ℕ → ℕ → Bytes
fill m o v len k = if leb o k && ltb k (o + len) then v else m k

abbrev pub le16 : Bytes → ℕ → ℕ
le16 m o = m o + m (o + 1) * 256

abbrev pub le32 : Bytes → ℕ → ℕ
le32 m o = m o + m (o + 1) * 256 + m (o + 2) * 65536 + m (o + 3) * 16777216

-- byte `j` of the little-endian form of a 32-bit word
abbrev pub le_byte : ℕ → ℕ → ℕ
le_byte v zero = v % 256
le_byte v (suc zero) = v / 256 % 256
le_byte v (suc (suc zero)) = v / 65536 % 256
le_byte v (suc (suc (suc j))) = v / 16777216 % 256

unfoldable pub put_u16 : Bytes → ℕ → ℕ → Bytes
put_u16 m o v = write (write m o (u8 v)) (o + 1) (u8 (v / 256))

unfoldable pub put_u32 : Bytes → ℕ → ℕ → Bytes
put_u32 m o v =
    write (write (write (write m o (u8 v)) (o + 1) (u8 (v / 256))) (o + 2) (u8 (v / 65536))) (o + 3)
      (u8 (v / 16777216))

-- The C string in a field of `n` bytes followed by a NUL.
unfoldable pub c_string : ℕ → Bytes → ℕ → List ℕ
c_string zero m o = []
c_string (suc n) m o = let rest = c_string n m (o + 1) in if m o == 0 then [] else m o ∷ rest

-- strcmp(a, b) == 0
unfoldable pub str_eq : List ℕ → List ℕ → Bool
str_eq [] [] = true
str_eq [] (y ∷ ys) = false
str_eq (x ∷ xs) [] = false
str_eq (x ∷ xs) (y ∷ ys) = x == y && str_eq xs ys

-- for (i = 0; i < n; i++) f(i)
unfoldable pub times : ℕ → (ℕ → Bytes → Bytes) → Bytes → Bytes
times zero f m = m
times (suc n) f m = f n (times n f m)
