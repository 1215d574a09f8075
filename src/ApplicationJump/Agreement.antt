-- ===== src/ApplicationJump/Agreement.antt =====
-- node-stm32f103/bootloader/src/application_jump.c and shared/src/full_image_validation.c: the two
-- checks of a vector table.
use secure_delta_ota_bootloa.Base.{ℕ, ◌≡◌, ◌↔◌, arith}
use secure_delta_ota_bootloa.Memory.{application_start_address, application_max_size}
use secure_delta_ota_bootloa.FullImage.{validate_vector, vector_valid}
use secure_delta_ota_bootloa.ApplicationJump.{
  validate, application_ok, stack_pointer_at, reset_handler_at,
}

-- If the check of an image of any size accepts the stack pointer and the reset handler that the
-- application region begins with, the check in front of a jump accepts the region; it accepts it exactly
-- if the check of an image that fills the region does.
pub validate-validate_vector :
    (memory : ℕ → ℕ) (image_size : ℕ)
    → let stack = stack_pointer_at memory application_start_address in
      let reset = reset_handler_at memory application_start_address in
      let accepted = validate application_start_address memory ≡ application_ok in
      (validate_vector image_size stack reset ≡ vector_valid → accepted)
      × (accepted ↔ (validate_vector application_max_size stack reset ≡ vector_valid))
unfolding validate validate_vector
validate-validate_vector memory image_size = (ground arith, ground arith)
