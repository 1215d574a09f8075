-- ===== src/Crc32/Tests.antt =====
-- Ranges that differ in one byte, and a range in two chunks.
use secure_delta_ota_bootloa.Base.{◌≡◌, ◌≢◌, refl, [], ◌∷◌, ◌++◌, arith}
use secure_delta_ota_bootloa.Crc32.{calculate, update, shift_bits, shift_bit}
use secure_delta_ota_bootloa.Crc32.Detects.{calculate_detects_byte}

-- The check value of the CRC: the digits 1 to 9.
check_value : calculate (49 ∷ 50 ∷ 51 ∷ 52 ∷ 53 ∷ 54 ∷ 55 ∷ 56 ∷ 57 ∷ []) ≡ 0xCBF43926
unfolding calculate update shift_bits shift_bit
check_value = refl

calculate_detects_byte_example :
    calculate ((49 ∷ []) ++ (50 ∷ (51 ∷ []))) ≢ calculate ((49 ∷ []) ++ (178 ∷ (51 ∷ [])))
calculate_detects_byte_example =
    calculate_detects_byte (49 ∷ []) (51 ∷ []) 50 178 (omega arith) (omega arith) (omega arith)
      (omega arith) (omega arith)
