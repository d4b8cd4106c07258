-- ===== src/Render.antt =====
-- The GPU packet emitters: decomp/src/render/render.c. The arena and the caller's frame lie in one
-- native memory, since the unaligned accesses depend on the real addresses.
pub mod Arena
use gt2_recomp.Prelude.{
  ℕ, zero, suc, ◌+◌, ◌-◌, ◌*◌, ◌/◌, ◌%◌, ◌^◌, Bool, true, false, ◌&&◌, not, Outcome, ok, err, ◌>>=◌,
  ◌>>◌, guard, ltb, leb, ◌==◌, if◌then◌else◌, bit_or, bit_and, bit_xor,
}
use gt2_recomp.Bytes.{Bytes, write, le32, put_u32, u8, u32}

-- gt2_render_status_t without its OK
pub data RenderStatus : Type 0 where
  inval oob : RenderStatus

-- x & ~3
abbrev pub word_floor : ℕ → ℕ
word_floor x = x / 4 * 4

-- the word that vlwl leaves, `k` bytes of it loaded
unfoldable pub vlwl : Bytes → ℕ → ℕ → ℕ
vlwl mem at rt =
    let k = at % 4 + 1 in
    bit_or (bit_and rt (if ltb k 4 then 2 ^ (32 - 8 * k) - 1 else 0))
      (u32 (le32 mem (word_floor at) * 2 ^ (32 - 8 * k)))

-- the loop of vswl from byte `j` on, `n` bytes to go
unfoldable pub swl_bytes : ℕ → Bytes → ℕ → ℕ → ℕ → Bytes
swl_bytes zero mem at v j = mem
swl_bytes (suc n) mem at v j =
    swl_bytes n (write mem (at - j) (u8 (v / 2 ^ (24 - 8 * j)))) at v (j + 1)

unfoldable pub vswl : Bytes → ℕ → ℕ → Bytes
unfolding swl_bytes
vswl mem at v = swl_bytes (at % 4 + 1) mem at v 0

-- what an emitter leaves: the memory, the bump offset and the packet to fill
pub record Emitted : Type 0 where
  pub mem : Bytes
  pub top : ℕ
  pub pkt : ℕ

-- the packet's flags word
unfoldable pub flags_word : Bool → ℕ → ℕ
flags_word is_a flags = if is_a then bit_xor flags 0x64000000 else bit_or flags 0xE1000000

-- the writes of `emit`, in order
unfoldable pub packet : Bool → Bytes → ℕ → ℕ → ℕ → ℕ → ℕ → ℕ → Bytes
unfolding vlwl vswl flags_word
packet is_a mem arena arena_addr top fp flags a2in =
    let a2 = vlwl mem (fp + 2) a2in in
    let tagged = write mem (arena + top + 3) (if is_a then 4 else 1) in
    let headed = vswl tagged (arena + top + 2) a2 in
    let linked = vswl headed (fp + 2) (u32 (u32 (arena_addr + top) * 2 ^ 8)) in
    put_u32 linked (arena + top + 4) (flags_word is_a flags)

-- the bump of the top, and the packet after the header
abbrev pub emitted : Bool → ℕ → ℕ → Bytes → Emitted
emitted is_a arena top mem = record {
  mem = mem;
  top = u32 (top + (if is_a then 0x14 else 8));
  pkt = arena + u32 (top + (if is_a then 8 else 4));
}

-- emit: the arena of `arena_len` bytes at `arena`, the frame of `fp_len` bytes at `fp`
unfoldable pub emit : Bool → Bytes → ℕ → ℕ → ℕ → ℕ → ℕ → ℕ → ℕ → ℕ → Outcome RenderStatus Emitted
emit is_a mem arena arena_len arena_addr top fp fp_len flags a2in = do
  guard (not (ltb arena_len (top + 8))) oob
  guard (not ((arena + top + 2) % 4 == 3 && top == 0)) oob
  guard (not (ltb (fp + fp_len) (word_floor (fp + 2) + 4))) inval
  ok (emitted is_a arena top (packet is_a mem arena arena_addr top fp flags a2in))

-- gt2_render_emit_a
abbrev pub emit_a : Bytes → ℕ → ℕ → ℕ → ℕ → ℕ → ℕ → ℕ → ℕ → Outcome RenderStatus Emitted
emit_a = emit true

-- gt2_render_emit_b
abbrev pub emit_b : Bytes → ℕ → ℕ → ℕ → ℕ → ℕ → ℕ → ℕ → ℕ → Outcome RenderStatus Emitted
emit_b = emit false
