-- ===== src/Progress.antt =====
-- shared/src/install_progress.c and backup_progress.c: the checkpoints of the two copy loops.
pub mod Steps
mod Tests
use secure_delta_ota_bootloa.Base.{
  ℕ, zero, suc, ◌+◌, ◌-◌, Bool, true, false, ◌&&◌, ◌||◌, bit_and, ltb, ◌==◌, ◌!=◌, if◌then◌else◌,
}
use secure_delta_ota_bootloa.Memory.{
  application_max_size, internal_flash_page_size, ext_flash_sector_size,
}

pub data InstallStatus : Type 0 where
  install_valid invalid_image_size invalid_offset invalid_alignment : InstallStatus

unfoldable pub install_validate : ℕ → ℕ → InstallStatus
install_validate image_size copy_offset =
    if ltb image_size 8 || ltb application_max_size image_size
    then invalid_image_size
    else if ltb image_size copy_offset
    then invalid_offset
    else if copy_offset != image_size && bit_and copy_offset (internal_flash_page_size - 1) != 0
    then invalid_alignment
    else install_valid

abbrev pub is_install_valid : InstallStatus → Bool
is_install_valid install_valid = true
is_install_valid _ = false

unfoldable pub install_page_length : ℕ → ℕ → ℕ
unfolding install_validate
install_page_length image_size copy_offset =
    let remaining = image_size - copy_offset in
    if is_install_valid (install_validate image_size copy_offset)
    then if copy_offset == image_size
      then 0
      else if ltb internal_flash_page_size remaining
      then internal_flash_page_size
      else remaining
    else 0

unfoldable pub install_next_checkpoint : ℕ → ℕ → ℕ
unfolding install_page_length
install_next_checkpoint image_size copy_offset =
    let page_length = install_page_length image_size copy_offset in
    if page_length == 0 then copy_offset else copy_offset + page_length

pub data BackupStatus : Type 0 where
  backup_valid invalid_backup_offset invalid_backup_alignment : BackupStatus

unfoldable pub backup_validate : ℕ → BackupStatus
backup_validate copy_offset =
    if ltb application_max_size copy_offset
    then invalid_backup_offset
    else if copy_offset != application_max_size
        && bit_and copy_offset (ext_flash_sector_size - 1) != 0
    then invalid_backup_alignment
    else backup_valid

abbrev pub is_backup_valid : BackupStatus → Bool
is_backup_valid backup_valid = true
is_backup_valid _ = false

unfoldable pub backup_chunk_length : ℕ → ℕ
unfolding backup_validate
backup_chunk_length copy_offset =
    let remaining = application_max_size - copy_offset in
    if is_backup_valid (backup_validate copy_offset)
    then if copy_offset == application_max_size
      then 0
      else if ltb ext_flash_sector_size remaining
      then ext_flash_sector_size
      else remaining
    else 0

unfoldable pub backup_next_checkpoint : ℕ → ℕ
unfolding backup_chunk_length
backup_next_checkpoint copy_offset = copy_offset + backup_chunk_length copy_offset
