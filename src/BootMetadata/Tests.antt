-- ===== src/BootMetadata/Tests.antt =====
-- A valid record, and the same record with its state byte changed.
use secure_delta_ota_bootloa.Base.{◌≡◌, ◌≢◌, ◌↔◌, refl, some, arith, set}
use secure_delta_ota_bootloa.Base.Bytes.{put_u32_le, byte_at}
use secure_delta_ota_bootloa.Base.Image.{bytes_of_words}
use secure_delta_ota_bootloa.Crc32.{calculate, update, shift_bits, shift_bit}
use secure_delta_ota_bootloa.BootMetadata.{
  BootMetadata, init, finalize, encode, decode, validate, valid, state_is_valid,
  state_fields_are_consistent, fields_of_state, calculate_crc, code, installing,
  update_payload_is_complete,
}
use secure_delta_ota_bootloa.BootMetadata.Image.{IsRecord}
use secure_delta_ota_bootloa.BootMetadata.Checks.{IsSealed}
use secure_delta_ota_bootloa.BootMetadata.States.{FitsState, IsBounded, validate-valid_iff}
use secure_delta_ota_bootloa.BootMetadata.Corruption.{validate_detects_byte}

abbrev factory : BootMetadata
factory = finalize (record (init 7) { generation = 1 })

abbrev half_installed : BootMetadata
half_installed = finalize (record (init 7) {
  generation = 5;
  state = code installing;
  active_update_id = 3;
  received_size = 4096;
  expected_size = 4096;
  copy_offset = 2048;
})

record_code : Unit {0}
unfolding finalize init validate encode bytes_of_words put_u32_le state_is_valid
    state_fields_are_consistent fields_of_state update_payload_is_complete calculate_crc calculate
    update shift_bits shift_bit
record_code = tt

factory-IsRecord : IsRecord factory
unfolding record_code
factory-IsRecord = omega arith

factory_valid : validate (some factory) ≡ valid
unfolding record_code
factory_valid = refl

factory_state_byte : byte_at (encode factory) 12 ≡ 0
unfolding record_code
factory_state_byte = refl

half_installed_valid : validate (some half_installed) ≡ valid
unfolding record_code
half_installed_valid = refl

validate-valid_iff_example :
    (validate (some half_installed) ≡ valid)
    ↔ (IsSealed half_installed × IsBounded half_installed × FitsState half_installed)
validate-valid_iff_example = validate-valid_iff half_installed

validate_detects_byte_example : validate (some (decode (set (encode factory) 12 1))) ≢ valid
validate_detects_byte_example =
    validate_detects_byte factory 12 1 factory-IsRecord factory_valid (omega arith) (omega arith)
      (omega (arith, factory_state_byte))
