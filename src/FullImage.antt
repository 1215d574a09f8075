-- ===== src/FullImage.antt =====
-- shared/src/full_image_validation.c: the vector table of an application image.
pub mod Checks
use secure_delta_ota_bootloa.Base.{
  ℕ, ◌+◌, ◌-◌, Bool, true, false, ◌||◌, bit_and, ltb, leb, ◌==◌, ◌!=◌, if◌then◌else◌,
}
use secure_delta_ota_bootloa.Memory.{
  application_max_size, application_start_address, internal_sram_base, internal_sram_end,
}

pub data VectorStatus : Type 0 where
  vector_valid too_small too_large bad_stack_range bad_stack_alignment : VectorStatus
  bad_reset_thumb_bit bad_reset_range : VectorStatus

abbrev pub thumb_state_bit : ℕ
thumb_state_bit = 1

abbrev pub address_without_thumb_mask : ℕ
address_without_thumb_mask = 0xFFFFFFFE

abbrev pub required_stack_alignment : ℕ
required_stack_alignment = 8

unfoldable pub validate_vector : ℕ → ℕ → ℕ → VectorStatus
validate_vector image_size initial_stack_pointer reset_handler_address =
    let reset_code = bit_and reset_handler_address address_without_thumb_mask in
    let image_end = application_start_address + image_size in
    if ltb image_size 8
    then too_small
    else if ltb application_max_size image_size
    then too_large
    else if ltb initial_stack_pointer internal_sram_base
        || ltb internal_sram_end initial_stack_pointer
    then bad_stack_range
    else if bit_and initial_stack_pointer (required_stack_alignment - 1) != 0
    then bad_stack_alignment
    else if bit_and reset_handler_address thumb_state_bit == 0
    then bad_reset_thumb_bit
    else if ltb reset_code application_start_address || leb image_end reset_code
    then bad_reset_range
    else vector_valid
