-- ===== src/Memory.antt =====
-- shared/include/memory_map.h: the addresses and sizes that the components share.
use secure_delta_ota_bootloa.Base.{ℕ, ◌+◌, ◌-◌, ◌*◌}

abbrev pub internal_sram_base : ℕ
internal_sram_base = 0x20000000

abbrev pub internal_sram_end : ℕ
internal_sram_end = internal_sram_base + 20 * 1024

abbrev pub internal_flash_page_size : ℕ
internal_flash_page_size = 1024

abbrev pub application_start_address : ℕ
application_start_address = 0x08006000

abbrev pub application_max_size : ℕ
application_max_size = 38 * 1024

abbrev pub boot_metadata_a_address : ℕ
boot_metadata_a_address = 0x0800F800

abbrev pub boot_metadata_b_address : ℕ
boot_metadata_b_address = 0x0800FC00

abbrev pub ext_flash_size : ℕ
ext_flash_size = 0x400000

abbrev pub ext_flash_sector_size : ℕ
ext_flash_sector_size = 0x1000

abbrev pub ext_flash_page_size : ℕ
ext_flash_page_size = 0x0100

abbrev pub ext_incoming_size : ℕ
ext_incoming_size = 0x020000

abbrev pub ext_reconstructed_size : ℕ
ext_reconstructed_size = 0x020000

abbrev pub ext_metadata_a_address : ℕ
ext_metadata_a_address = 0x000000

abbrev pub ext_metadata_b_address : ℕ
ext_metadata_b_address = 0x001000

abbrev pub ext_metadata_handoff_offset : ℕ
ext_metadata_handoff_offset = 0x0000

abbrev pub ext_metadata_download_offset : ℕ
ext_metadata_download_offset = 0x0100

abbrev pub ext_incoming_address : ℕ
ext_incoming_address = 0x002000

abbrev pub ext_reconstructed_address : ℕ
ext_reconstructed_address = 0x022000

abbrev pub ext_backup_address : ℕ
ext_backup_address = 0x042000

abbrev pub ext_backup_size : ℕ
ext_backup_size = 0x020000

abbrev pub ext_log_address : ℕ
ext_log_address = 0x062000

abbrev pub ext_log_size : ℕ
ext_log_size = 0x010000

abbrev pub ext_self_test_address : ℕ
ext_self_test_address = ext_flash_size - ext_flash_sector_size
