-- ===== src/Render/Arena.antt =====
-- What an emitter changes of the memory, and where its packets lie.
use gt2_recomp.Prelude.{
  ℕ, zero, suc, ◌+◌, ◌-◌, ◌*◌, ◌/◌, ◌%◌, ◌^◌, ◌≤◌, ◌<◌, ◌≡◌, ◌≢◌, ◌⊎◌, refl, ◌∙◌, Bool, true, false,
  ◌&&◌, not, ok, guard, ltb, ◌==◌, if◌then◌else◌, arith, inl, inr, >>=-eq-ok, ok-injective,
}
use gt2_recomp.Bytes.{Bytes, write, u8, u32}
use gt2_recomp.Bytes.Laws.{put_u32_ne}
use gt2_recomp.Render.{
  word_floor, vlwl, swl_bytes, vswl, Emitted, flags_word, packet, emitted, emit, oob, inval,
}

write_ne : (mem : Bytes) (o v k : ℕ) → k ≢ o → write mem o v k ≡ mem k
write_ne mem o v k h = ground arith

swl_bytes_ne :
    (n : ℕ) (mem : Bytes) (at v j k : ℕ)
    → j + n ≤ at + 1
    → (k + j + n ≤ at) ⊎ (at < k + j)
    → swl_bytes n mem at v j k ≡ mem k
unfolding swl_bytes
swl_bytes_ne zero mem at v j k h out = refl
swl_bytes_ne (suc n) mem at v j k h (inl low) =
    swl_bytes_ne n (write mem (at - j) (u8 (v / 2 ^ (24 - 8 * j)))) at v (j + 1) k (omega arith)
      (inl (omega arith))
    ∙ write_ne mem (at - j) (u8 (v / 2 ^ (24 - 8 * j))) k (omega arith)
swl_bytes_ne (suc n) mem at v j k h (inr high) =
    swl_bytes_ne n (write mem (at - j) (u8 (v / 2 ^ (24 - 8 * j)))) at v (j + 1) k (omega arith)
      (inr (omega arith))
    ∙ write_ne mem (at - j) (u8 (v / 2 ^ (24 - 8 * j))) k (omega arith)

vswl_ne : (mem : Bytes) (at v k : ℕ) → (k < word_floor at) ⊎ (at < k) → vswl mem at v k ≡ mem k
unfolding vswl
vswl_ne mem at v k (inl low) =
    swl_bytes_ne (at % 4 + 1) mem at v 0 k (omega arith) (inl (omega arith))
vswl_ne mem at v k (inr high) =
    swl_bytes_ne (at % 4 + 1) mem at v 0 k (omega arith) (inr (omega arith))

-- The byte is none of those that an emitter writes: the header and the flags word of the packet at the
-- address `at`, and the link in the frame at `fp`.
pub record Untouched (at fp k : ℕ) : Type 0 where
  pub packet : (k < word_floor (at + 2)) ⊎ (at + 8 ≤ k)
  pub link : (k < word_floor (fp + 2)) ⊎ (fp + 2 < k)

away :
    (arena arena_len top k : ℕ)
    → top + 8 ≤ arena_len
    → arena ≤ word_floor (arena + top + 2)
    → (k < arena) ⊎ (arena + arena_len ≤ k)
    → (k < word_floor (arena + top + 2)) ⊎ (arena + top + 8 ≤ k)
away arena arena_len top k fits low (inl below) = inl (omega arith)
away arena arena_len top k fits low (inr above) = inr (omega arith)

tiles :
    (is_a : Bool) (arena top : ℕ)
    → top + 0x14 < 2 ^ 32
    → arena + u32 (top + (if is_a then 0x14 else 8))
      ≡ arena + u32 (top + (if is_a then 8 else 4)) + (if is_a then 12 else 4)
tiles true arena top h = omega arith
tiles false arena top h = omega arith

pub packet_outside :
    (is_a : Bool) (mem : Bytes) (arena arena_addr top fp flags a2in k : ℕ)
    → Untouched (arena + top) fp k
    → packet is_a mem arena arena_addr top fp flags a2in k ≡ mem k
unfolding packet
packet_outside is_a mem arena arena_addr top fp flags a2in k out =
    let far = out.packet in
    put_u32_ne _ (arena + top + 4) (flags_word is_a flags) k (omega arith)
    ∙ vswl_ne _ (fp + 2) (u32 (u32 (arena_addr + top) * 2 ^ 8)) k out.link
    ∙ vswl_ne _ (arena + top + 2) (vlwl mem (fp + 2) a2in) k (omega arith)
    ∙ write_ne mem (arena + top + 3) (if is_a then 4 else 1) k (omega arith)

-- what the guards of an emitter that succeeds have found
emit-room :
    (is_a : Bool) (mem : Bytes) (arena arena_len arena_addr top fp fp_len flags a2in : ℕ)
    (out : Emitted)
    → emit is_a mem arena arena_len arena_addr top fp fp_len flags a2in ≡ ok out
    → (top + 8 ≤ arena_len) × (arena ≤ word_floor (arena + top + 2))
unfolding emit
emit-room is_a mem arena arena_len arena_addr top fp fp_len flags a2in out h =
    let fits : top + 8 ≤ arena_len = ground (arith, h) in
    let low : not ((arena + top + 2) % 4 == 3 && top == 0) ≡ true = ground (arith, h) in
    (fits, ground (arith, low))

emit-emitted :
    (is_a : Bool) (mem : Bytes) (arena arena_len arena_addr top fp fp_len flags a2in : ℕ)
    (out : Emitted)
    → emit is_a mem arena arena_len arena_addr top fp fp_len flags a2in ≡ ok out
    → emitted is_a arena top (packet is_a mem arena arena_addr top fp flags a2in) ≡ out
unfolding emit
emit-emitted is_a mem arena arena_len arena_addr top fp fp_len flags a2in out h =
    let (u, a, h1) = >>=-eq-ok (guard (not (ltb arena_len (top + 8))) oob) _ h in
    let (v, b, h2) = >>=-eq-ok (guard (not ((arena + top + 2) % 4 == 3 && top == 0)) oob) _ h1 in
    let (w, c, h3) =
      >>=-eq-ok (guard (not (ltb (fp + fp_len) (word_floor (fp + 2) + 4))) inval) _ h2 in
    ok-injective h3

-- What an emitter that succeeds has done: no byte outside both the arena and the word of the frame
-- that takes the link has changed, the packet's header lies in the arena, and the new top is where the
-- 12 bytes to fill after an A header, or the 4 bytes of the flags word of B, end.
pub record PacketIn (is_a : Bool) (mem : Bytes) (arena arena_len top fp : ℕ) (out : Emitted)
    : Type 0 where
  pub outside :
      (k : ℕ)
      → (k < arena) ⊎ (arena + arena_len ≤ k)
      → (k < word_floor (fp + 2)) ⊎ (fp + 2 < k)
      → out.mem k ≡ mem k
  pub header : top + 8 ≤ arena_len
  pub tiled : arena + out.top ≡ out.pkt + (if is_a then 12 else 4)

-- An emitter that succeeds below 4 GiB of arena, with either tag, leaves a packet in the arena: no byte
-- outside the arena and the linked word of the frame has changed, the 8 bytes of the header fit, and
-- the new top is the end of the packet that the caller is given.
pub emit-PacketIn :
    (is_a : Bool) (mem : Bytes) (arena arena_len arena_addr top fp fp_len flags a2in : ℕ)
    (out : Emitted)
    → top + 0x14 < 2 ^ 32
    → emit is_a mem arena arena_len arena_addr top fp fp_len flags a2in ≡ ok out
    → PacketIn is_a mem arena arena_len top fp out
emit-PacketIn is_a mem arena arena_len arena_addr top fp fp_len flags a2in out small h =
    let (fits, low) =
      emit-room is_a mem arena arena_len arena_addr top fp fp_len flags a2in out h in
    rw⁻¹ (emit-emitted is_a mem arena arena_len arena_addr top fp fp_len flags a2in out h) (record {
      outside = λ k far off.
          packet_outside is_a mem arena arena_addr top fp flags a2in k
            (record { packet = away arena arena_len top k fits low far; link = off });
      header = fits;
      tiled = tiles is_a arena top small;
    })
