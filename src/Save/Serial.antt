-- ===== src/Save/Serial.antt =====
-- gt2_crc32 against the bit-serial definition of CRC-32.
use gt2_recomp.Prelude.{
  ℕ, zero, suc, ◌+◌, ◌-◌, ◌*◌, ◌/◌, ◌%◌, ◌^◌, ◌<◌, ◌≡◌, refl, sym, ap, ◌∙◌, Bool, true, false, ◌==◌,
  if◌then◌else◌, arith, bit_xor, zero-bit_xor, bit_xor-zero, bit_xor_half, bit_xor_odd,
  bit_xor_comm, bit_xor_assoc, bit_xor-add, bit_xor-lt, twice_power, Bool-cases, inl, inr,
}
use gt2_recomp.Bytes.{Bytes, u8}
use gt2_recomp.Bytes.Laws.{IsByte}
use gt2_recomp.Save.{CrcTable, entry_round, entry_rounds, build_table, ready_table, crc_loop, crc32}

abbrev pub polynomial : ℕ
polynomial = 0xEDB88320

-- The shift register after one message bit, the lowest bit of `d`: where the bit that it shifts out
-- differs from the message bit, the polynomial is added.
abbrev pub shift_in : ℕ → ℕ → ℕ
shift_in crc d = bit_xor (if (crc + d) % 2 == 1 then polynomial else 0) (crc / 2)

-- after the `k` lowest bits of `d`, lowest first
unfoldable pub bits_in : ℕ → ℕ → ℕ → ℕ
bits_in zero crc d = crc
bits_in (suc k) crc d = bits_in k (shift_in crc d) (d / 2)

-- after `n` bytes of a message from byte `i` on
unfoldable pub message_in : ℕ → Bytes → ℕ → ℕ → ℕ
message_in zero bytes i crc = crc
message_in (suc n) bytes i crc = message_in n bytes (i + 1) (bits_in 8 crc (bytes i))

entry_round_mask : (c : ℕ) → entry_round c ≡ bit_xor (if c % 2 == 1 then polynomial else 0) (c / 2)
unfolding entry_round
entry_round_mask c = elim (Bool-cases (c % 2 == 1)) [
  | inl odd ↦ rw odd refl
  | inr even ↦ rw even (sym (zero-bit_xor (c / 2)))
]

-- a round of the register with the message's bits added in
round_in : (crc d : ℕ) → entry_round (bit_xor crc d) ≡ bit_xor (shift_in crc d) (d / 2)
round_in crc d =
    entry_round_mask (bit_xor crc d)
    ∙ rw (bit_xor_odd crc d, bit_xor_half crc d)
        (sym (bit_xor_assoc (if (crc + d) % 2 == 1 then polynomial else 0) (crc / 2) (d / 2)))

rounds_in : (k crc d : ℕ) → d < 2 ^ k → entry_rounds k (bit_xor crc d) ≡ bits_in k crc d
unfolding entry_rounds bits_in
rounds_in zero crc zero h = bit_xor-zero crc
rounds_in zero crc (suc d) h = absurd (omega arith)
rounds_in (suc k) crc d h =
    ap (entry_rounds k) (round_in crc d) ∙ rounds_in k (shift_in crc d) (d / 2) (omega (arith, h))

-- what stands above the bits that go out only moves down
high_round :
    (k x h : ℕ) → entry_round (bit_xor x (h * 2 ^ suc k)) ≡ bit_xor (entry_round x) (h * 2 ^ k)
high_round k x h =
    let even : (x + h * 2 ^ suc k) % 2 ≡ x % 2 = omega (arith, twice_power k h) in
    let half : h * 2 ^ suc k / 2 ≡ h * 2 ^ k = omega (arith, twice_power k h) in
    round_in x (h * 2 ^ suc k) ∙ rw (even, half, entry_round_mask x) refl

high_rounds : (k x h : ℕ) → entry_rounds k (bit_xor x (h * 2 ^ k)) ≡ bit_xor (entry_rounds k x) h
unfolding entry_rounds
high_rounds zero x h = let one : h * 2 ^ 0 ≡ h = omega arith in ap (bit_xor x) one
high_rounds (suc k) x h = ap (entry_rounds k) (high_round k x h) ∙ high_rounds k (entry_round x) h

-- one byte by the table is eight bits
byte_in :
    (crc b : ℕ)
    → b < 256
    → bit_xor (entry_rounds 8 (u8 (bit_xor crc b))) (crc / 256) ≡ bits_in 8 crc b
byte_in crc b h =
    let low = bit_xor (crc % 256) b in
    let small : low < 2 ^ 8 = bit_xor-lt 8 (crc % 256) b (omega arith) (omega arith) in
    let parts : crc ≡ bit_xor (crc % 256) (crc / 256 * 2 ^ 8) =
      omega (arith, bit_xor-add 8 (crc % 256) (crc / 256) (omega arith)) in
    let with_byte : bit_xor crc b ≡ bit_xor low (crc / 256 * 2 ^ 8) =
      ap (λ x. bit_xor x b) parts
      ∙ bit_xor_assoc (crc % 256) (crc / 256 * 2 ^ 8) b
      ∙ ap (bit_xor (crc % 256)) (bit_xor_comm (crc / 256 * 2 ^ 8) b)
      ∙ sym (bit_xor_assoc (crc % 256) b (crc / 256 * 2 ^ 8)) in
    let bottom : u8 (bit_xor crc b) ≡ low =
      omega (arith, with_byte, bit_xor-add 8 low (crc / 256) small) in
    ap (λ x. bit_xor (entry_rounds 8 x) (crc / 256)) bottom
    ∙ sym (high_rounds 8 low (crc / 256))
    ∙ ap (entry_rounds 8) (sym with_byte)
    ∙ rounds_in 8 crc b h

-- A table that is marked ready is the one that build_table makes.
abbrev pub IsSoundTable : CrcTable → Type 0
IsSoundTable t = t.ready ≡ true → (i : ℕ) → i < 256 → t.entry i ≡ build_table.entry i

ready_table-entry :
    (t : CrcTable) → IsSoundTable t → (i : ℕ) → i < 256 → (ready_table t).entry i ≡ entry_rounds 8 i
unfolding build_table
ready_table-entry t s i h = elim (Bool-cases t.ready) [
  | inl built ↦ rw built (s built i h)
  | inr fresh ↦ rw fresh refl
]

ready_table-ready : (t : CrcTable) → (ready_table t).ready ≡ true
unfolding build_table
ready_table-ready t = elim (Bool-cases t.ready) [
  | inl built ↦ rw built refl
  | inr fresh ↦ rw fresh refl
]

crc_loop-message :
    (n : ℕ) (entry : ℕ → ℕ) (bytes : Bytes) (i crc : ℕ)
    → ((k : ℕ) → k < 256 → entry k ≡ entry_rounds 8 k)
    → ((k : ℕ) → bytes k < 256)
    → crc_loop n entry bytes i crc ≡ message_in n bytes i crc
unfolding crc_loop message_in
crc_loop-message zero entry bytes i crc e h = refl
crc_loop-message (suc n) entry bytes i crc e h =
    let byte : bit_xor (entry (u8 (bit_xor crc (bytes i)))) (crc / 256) ≡ bits_in 8 crc (bytes i) =
      ap (λ x. bit_xor x (crc / 256)) (e (u8 (bit_xor crc (bytes i))) (omega arith))
      ∙ byte_in crc (bytes i) (h i) in
    ap (crc_loop n entry bytes (i + 1)) byte
    ∙ crc_loop-message n entry bytes (i + 1) (bits_in 8 crc (bytes i)) e h

mask_lt : (b : Bool) → (if b then polynomial else 0) < 2 ^ 32
mask_lt true = omega arith
mask_lt false = omega arith

bits_in-lt : (k crc d : ℕ) → crc < 2 ^ 32 → bits_in k crc d < 2 ^ 32
unfolding bits_in
bits_in-lt zero crc d h = h
bits_in-lt (suc k) crc d h = bits_in-lt k (shift_in crc d) (d / 2) (
    bit_xor-lt 32 (if (crc + d) % 2 == 1 then polynomial else 0) (crc / 2)
      (mask_lt ((crc + d) % 2 == 1)) (omega arith))

message_in-lt :
    (n : ℕ) (bytes : Bytes) (i crc : ℕ) → crc < 2 ^ 32 → message_in n bytes i crc < 2 ^ 32
unfolding message_in
message_in-lt zero bytes i crc h = h
message_in-lt (suc n) bytes i crc h =
    message_in-lt n bytes (i + 1) (bits_in 8 crc (bytes i)) (bits_in-lt 8 crc (bytes i) h)

-- Over a message of bytes, and a table that is right if it is marked ready, gt2_crc32 returns the
-- complement of the 32-bit shift register that took the message in bit by bit, and leaves the table
-- ready and right.
pub crc32-message :
    (t : CrcTable) (bytes : Bytes) (len : ℕ)
    → IsSoundTable t
    → IsByte bytes
    → ((crc32 t bytes len).0 + message_in len bytes 0 (2 ^ 32 - 1) ≡ 2 ^ 32 - 1)
      × ((crc32 t bytes len).1.ready ≡ true)
      × IsSoundTable (crc32 t bytes len).1
unfolding crc32 build_table
crc32-message t bytes len s h =
    let low = message_in-lt len bytes 0 (2 ^ 32 - 1) (omega arith) in
    let same =
      crc_loop-message len (ready_table t).entry bytes 0 (2 ^ 32 - 1) (ready_table-entry t s)
        h.small in
    (omega (arith, low, same), ready_table-ready t, λ r. ready_table-entry t s)
