-- ===== src/DeltaPatch/Tests.antt =====
-- The header of a patch from version 7 to version 8.
use secure_delta_ota_bootloa.Base.{
  ℕ, ◌+◌, ◌≡◌, ◌≢◌, ◌↔◌, ◌⊎◌, refl, some, List, [], ◌∷◌, arith, set,
}
use secure_delta_ota_bootloa.Base.Bytes.{get_u16_le, get_u32_le, le16, le32}
use secure_delta_ota_bootloa.Crc32.{calculate, update, shift_bits, shift_bit}
use secure_delta_ota_bootloa.DeltaPatch.{
  valid, parse_header, check_header, header_of, header_crc32, header_size,
}
use secure_delta_ota_bootloa.DeltaPatch.Header.{IsSealed, IsInstallable, parse_header_iff}
use secure_delta_ota_bootloa.DeltaPatch.Corruption.{parse_header_detects_byte}

abbrev raw_header : List ℕ
raw_header =
    68 ∷ 49 ∷ 51 ∷ 80 ∷ 1 ∷ 0 ∷ 48 ∷ 0 ∷ 7 ∷ 0 ∷ 0 ∷ 0 ∷ 8 ∷ 0 ∷ 0 ∷ 0 ∷ 0 ∷ 16 ∷ 0 ∷ 0 ∷ 100 ∷ 0
    ∷ 0 ∷ 0 ∷ 136 ∷ 19 ∷ 0 ∷ 0 ∷ 0 ∷ 96 ∷ 0 ∷ 8 ∷ 1 ∷ 0 ∷ 0 ∷ 0 ∷ 2 ∷ 0 ∷ 0 ∷ 0 ∷ 3 ∷ 0 ∷ 0 ∷ 0
    ∷ 132 ∷ 214 ∷ 64 ∷ 75 ∷ []

abbrev artifact_size : ℕ
artifact_size = 148

raw_header_accepted : (parse_header (some raw_header) artifact_size).0 ≡ valid
unfolding parse_header check_header header_of header_crc32 get_u16_le get_u32_le le16 le32 calculate
    update shift_bits shift_bit
raw_header_accepted = refl

parse_header_iff_example : ((parse_header (some raw_header) artifact_size).0 ≡ valid) ↔ (
    IsSealed raw_header
    × IsInstallable (header_of raw_header)
    × ((artifact_size ≡ 0) ⊎ (artifact_size ≡ header_size + (header_of raw_header).patch_size)))
parse_header_iff_example = parse_header_iff raw_header artifact_size

parse_header_detects_byte_example : (parse_header (some (set raw_header 20 101)) 149).0 ≢ valid
parse_header_detects_byte_example =
    parse_header_detects_byte raw_header 148 149 20 101 refl (omega arith) raw_header_accepted
      (omega arith) (omega arith) (omega arith)
