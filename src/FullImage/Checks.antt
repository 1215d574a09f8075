-- ===== src/FullImage/Checks.antt =====
-- shared/src/full_image_validation.c: the conditions on a vector table, in arithmetic.
use secure_delta_ota_bootloa.Base.{ℕ, ◌+◌, ◌*◌, ◌/◌, ◌%◌, ◌≤◌, ◌<◌, ◌≡◌, ◌↔◌, arith, bit_and}
use secure_delta_ota_bootloa.Base.Bits.{bit_and_low, bit_and_step}
use secure_delta_ota_bootloa.Base.Bytes.{IsU32}
use secure_delta_ota_bootloa.Memory.{
  application_max_size, application_start_address, internal_sram_base, internal_sram_end,
}
use secure_delta_ota_bootloa.FullImage.{validate_vector, vector_valid, address_without_thumb_mask}

-- Clearing the lowest bit of a word.
clear_thumb : (a : ℕ) → IsU32 a → bit_and a address_without_thumb_mask ≡ a / 2 * 2
clear_thumb a h = omega (arith, bit_and_step a 0xFFFFFFFE, bit_and_low 31 (a / 2))

-- A vector table is accepted exactly if the image has an admissible size, the stack pointer is a
-- multiple of 8 in the RAM or at its end, and the reset handler is an odd address inside the image.
pub validate_vector_iff :
    (size stack reset : ℕ)
    → IsU32 reset
    → (validate_vector size stack reset ≡ vector_valid) ↔ (
        (8 ≤ size)
        × (size ≤ application_max_size)
        × (internal_sram_base ≤ stack)
        × (stack ≤ internal_sram_end)
        × (stack % 8 ≡ 0)
        × (reset % 2 ≡ 1)
        × (application_start_address ≤ reset)
        × (reset < application_start_address + size + 1))
unfolding validate_vector
validate_vector_iff size stack reset h =
    ground (arith, bit_and_low 3 stack, bit_and_low 1 reset, clear_thumb reset h)
