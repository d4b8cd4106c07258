-- ===== src/Save.antt =====
-- The save data's CRC-32: decomp/src/save/crc32.c.
pub mod Serial
use gt2_recomp.Prelude.{
  ℕ, zero, suc, ◌+◌, ◌-◌, ◌/◌, ◌%◌, ◌^◌, bit_xor, Bool, true, false, ◌==◌, if◌then◌else◌,
}
use gt2_recomp.Bytes.{Bytes, u8}

-- crc_table and table_ready
pub record CrcTable : Type 0 where
  pub ready : Bool
  pub entry : ℕ → ℕ

-- one bit of a table entry
unfoldable pub entry_round : ℕ → ℕ
entry_round c = if c % 2 == 1 then bit_xor 0xEDB88320 (c / 2) else c / 2

unfoldable pub entry_rounds : ℕ → ℕ → ℕ
unfolding entry_round
entry_rounds zero c = c
entry_rounds (suc k) c = entry_rounds k (entry_round c)

-- build_table
unfoldable pub build_table : CrcTable
unfolding entry_rounds
build_table = record { ready = true; entry = entry_rounds 8 }

abbrev pub ready_table : CrcTable → CrcTable
ready_table t = if t.ready then t else build_table

-- the loop of gt2_crc32 from byte `i` on
unfoldable pub crc_loop : ℕ → (ℕ → ℕ) → Bytes → ℕ → ℕ → ℕ
crc_loop zero entry bytes i crc = crc
crc_loop (suc n) entry bytes i crc =
    crc_loop n entry bytes (i + 1) (bit_xor (entry (u8 (bit_xor crc (bytes i)))) (crc / 256))

-- ~x on 32 bits
abbrev pub not32 : ℕ → ℕ
not32 x = 2 ^ 32 - 1 - x

-- gt2_crc32, with the table that it leaves
unfoldable pub crc32 : CrcTable → Bytes → ℕ → ℕ × CrcTable
unfolding crc_loop
crc32 t bytes len =
    let built = ready_table t in (not32 (crc_loop len built.entry bytes 0 (2 ^ 32 - 1)), built)
