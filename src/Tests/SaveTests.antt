-- ===== src/Tests/SaveTests.antt =====
-- The check value of CRC-32, and a second run over the table that the first left.
use gt2_recomp.Prelude.{◌+◌, ◌-◌, ◌^◌, ◌≡◌, refl, true, false, [], ◌∷◌, get_or, arith}
use gt2_recomp.Bytes.{Bytes}
use gt2_recomp.Bytes.Laws.{IsByte}
use gt2_recomp.Save.{CrcTable, crc32, build_table}
use gt2_recomp.Save.Serial.{message_in, IsSoundTable, crc32-message}
use gt2_recomp.Tests.Samples.{get_or-byte}

abbrev digits_text : Bytes
digits_text k = get_or (b'1' ∷ b'2' ∷ b'3' ∷ b'4' ∷ b'5' ∷ b'6' ∷ b'7' ∷ b'8' ∷ b'9' ∷ []) k 0

abbrev fresh : CrcTable
fresh = record { ready = false; entry = λ i. 0 }

check_value : (crc32 fresh digits_text 9).0 ≡ 0xCBF43926
unfolding crc32 build_table
check_value = refl

check_again : (crc32 (crc32 fresh digits_text 9).1 digits_text 9).0 ≡ 0xCBF43926
unfolding crc32 build_table
check_again = refl

empty : (crc32 fresh digits_text 0).0 ≡ 0
unfolding crc32
empty = refl

digits-IsByte : IsByte digits_text
digits-IsByte = record {
  small = λ k.
      get_or-byte (b'1' ∷ b'2' ∷ b'3' ∷ b'4' ∷ b'5' ∷ b'6' ∷ b'7' ∷ b'8' ∷ b'9' ∷ []) k
        (omega arith);
}

crc32-message_example :
    ((crc32 fresh digits_text 9).0 + message_in 9 digits_text 0 (2 ^ 32 - 1) ≡ 2 ^ 32 - 1)
    × ((crc32 fresh digits_text 9).1.ready ≡ true)
    × IsSoundTable (crc32 fresh digits_text 9).1
crc32-message_example = crc32-message fresh digits_text 9 (λ r. cc r) digits-IsByte
