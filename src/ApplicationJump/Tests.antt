-- ===== src/ApplicationJump/Tests.antt =====
-- An application region that begins with a valid vector table.
use secure_delta_ota_bootloa.Base.{ℕ, ◌≡◌, ◌↔◌, refl, [], ◌∷◌}
use secure_delta_ota_bootloa.Base.Bytes.{get_u32_le, le32}
use secure_delta_ota_bootloa.Base.Range.{read_range}
use secure_delta_ota_bootloa.NorFlash.Ram.{store}
use secure_delta_ota_bootloa.Memory.{application_start_address, application_max_size}
use secure_delta_ota_bootloa.FullImage.{validate_vector, vector_valid}
use secure_delta_ota_bootloa.ApplicationJump.{
  validate, application_ok, stack_pointer_at, reset_handler_at,
}
use secure_delta_ota_bootloa.ApplicationJump.Agreement.{validate-validate_vector}

abbrev installed : ℕ → ℕ
installed =
    store application_start_address (0x00 ∷ 0x50 ∷ 0x00 ∷ 0x20 ∷ 0x01 ∷ 0x61 ∷ 0x00 ∷ 0x08 ∷ [])
      (λ a. 0xFF)

installed_vector :
    validate_vector 0x1000
      (stack_pointer_at installed application_start_address)
      (reset_handler_at installed application_start_address)
    ≡ vector_valid
unfolding read_range store get_u32_le le32 validate_vector
installed_vector = refl

installed_accepted : validate application_start_address installed ≡ application_ok
installed_accepted = (validate-validate_vector installed 0x1000).0 installed_vector

validate-validate_vector_example :
    let stack = stack_pointer_at installed application_start_address in
    let reset = reset_handler_at installed application_start_address in
    let accepted = validate application_start_address installed ≡ application_ok in
    (validate_vector 0x1000 stack reset ≡ vector_valid → accepted)
    × (accepted ↔ (validate_vector application_max_size stack reset ≡ vector_valid))
validate-validate_vector_example = validate-validate_vector installed 0x1000
