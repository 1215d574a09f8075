-- ===== src/ExtFlash.antt =====
-- shared/src/ext_flash_layout.c: ranges and pages of the external flash.
pub mod Pages
use secure_delta_ota_bootloa.Base.{
  ℕ, ◌-◌, Bool, true, false, bit_and, ltb, leb, ◌==◌, if◌then◌else◌,
}
use secure_delta_ota_bootloa.Memory.{ext_flash_size, ext_flash_sector_size, ext_flash_page_size}

unfoldable pub is_range_valid : ℕ → ℕ → ℕ → Bool
is_range_valid region_size offset length =
    if ltb region_size offset then false else leb length (region_size - offset)

unfoldable pub is_absolute_range_valid : ℕ → ℕ → Bool
unfolding is_range_valid
is_absolute_range_valid address length = is_range_valid ext_flash_size address length

unfoldable pub is_sector_aligned : ℕ → Bool
is_sector_aligned address = bit_and address (ext_flash_sector_size - 1) == 0

unfoldable pub page_chunk_length : ℕ → ℕ → ℕ
page_chunk_length address remaining_length =
    let page_offset = bit_and address (ext_flash_page_size - 1) in
    let page_remaining = ext_flash_page_size - page_offset in
    if ltb remaining_length page_remaining then remaining_length else page_remaining
