-- ===== src/Crc32.antt =====
-- shared/src/crc32.c: the reflected IEEE CRC-32, bit by bit. A byte range is a list, and `length`
-- is its own; a NULL range is not modelled.
pub mod Laws
pub mod Detects
pub mod Sealed
mod Tests
use secure_delta_ota_bootloa.Base.{
  ℕ, zero, suc, ◌+◌, ◌-◌, ◌/◌, ◌%◌, ◌^◌, bit_and, bit_xor, List, [], ◌∷◌,
}
use secure_delta_ota_bootloa.Base.Bytes.{u32, ◌>>>◌}

abbrev pub polynomial : ℕ
polynomial = 0xEDB88320

abbrev pub initial_value : ℕ
initial_value = 0xFFFFFFFF

abbrev pub final_xor : ℕ
final_xor = 0xFFFFFFFF

-- One round of the inner loop; `mask` is all ones when the low bit is set.
unfoldable pub shift_bit : ℕ → ℕ
shift_bit crc =
    let mask = u32 (2 ^ 32 - bit_and crc 1) in bit_xor (crc >>> 1) (bit_and polynomial mask)

-- The inner loop, by the rounds left.
unfoldable pub shift_bits : ℕ → ℕ → ℕ
shift_bits zero crc = crc
shift_bits (suc rounds) crc = shift_bits rounds (shift_bit crc)

unfoldable pub update : ℕ → List ℕ → ℕ
unfolding shift_bit shift_bits
update crc [] = crc
update crc (byte ∷ bytes) = update (shift_bits 8 (bit_xor crc byte)) bytes

unfoldable pub calculate : List ℕ → ℕ
unfolding update
calculate bytes = bit_xor (update initial_value bytes) final_xor
