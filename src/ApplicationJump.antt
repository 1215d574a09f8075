-- ===== src/ApplicationJump.antt =====
-- node-stm32f103/bootloader/src/application_jump.c: the check of the vector table in front of a jump.
-- The jump itself writes registers and branches.
pub mod Agreement
mod Tests
use secure_delta_ota_bootloa.Base.{
  ℕ, ◌+◌, ◌-◌, ◌*◌, Bool, true, false, not, ◌&&◌, ◌||◌, bit_and, ltb, leb, ◌==◌, ◌!=◌,
  if◌then◌else◌,
}
use secure_delta_ota_bootloa.Base.Bytes.{get_u32_le}
use secure_delta_ota_bootloa.Base.Range.{read_range}
use secure_delta_ota_bootloa.Memory.{
  application_start_address, boot_metadata_a_address, internal_sram_base, internal_sram_end,
}

pub data ApplicationStatus : Type 0 where
  application_ok bad_vector_alignment bad_vector_range bad_stack_range : ApplicationStatus
  bad_stack_alignment bad_reset_thumb_bit bad_reset_range : ApplicationStatus

abbrev pub vector_table_alignment : ℕ
vector_table_alignment = 0x200

abbrev pub thumb_state_bit : ℕ
thumb_state_bit = 1

abbrev pub address_without_thumb_mask : ℕ
address_without_thumb_mask = 0xFFFFFFFE

abbrev pub required_stack_alignment : ℕ
required_stack_alignment = 8

unfoldable pub is_stack_pointer_in_range : ℕ → Bool
is_stack_pointer_in_range stack_pointer =
    leb internal_sram_base stack_pointer && leb stack_pointer internal_sram_end

unfoldable pub is_reset_handler_in_range : ℕ → Bool
is_reset_handler_in_range reset_handler =
    let code_address = bit_and reset_handler address_without_thumb_mask in
    leb application_start_address code_address && ltb code_address boot_metadata_a_address

-- The two words of a vector table in a memory.
abbrev pub stack_pointer_at : (ℕ → ℕ) → ℕ → ℕ
stack_pointer_at memory address = get_u32_le (read_range memory address 8) 0

abbrev pub reset_handler_at : (ℕ → ℕ) → ℕ → ℕ
reset_handler_at memory address = get_u32_le (read_range memory address 8) 4

unfoldable pub validate : ℕ → (ℕ → ℕ) → ApplicationStatus
unfolding is_stack_pointer_in_range is_reset_handler_in_range
validate vector_table_address memory =
    let initial_stack_pointer = stack_pointer_at memory vector_table_address in
    let reset_handler_address = reset_handler_at memory vector_table_address in
    if bit_and vector_table_address (vector_table_alignment - 1) != 0
    then bad_vector_alignment
    else if ltb vector_table_address application_start_address
        || ltb (boot_metadata_a_address - 2 * 4) vector_table_address
    then bad_vector_range
    else if not (is_stack_pointer_in_range initial_stack_pointer)
    then bad_stack_range
    else if bit_and initial_stack_pointer (required_stack_alignment - 1) != 0
    then bad_stack_alignment
    else if bit_and reset_handler_address thumb_state_bit == 0
    then bad_reset_thumb_bit
    else if not (is_reset_handler_in_range reset_handler_address)
    then bad_reset_range
    else application_ok
