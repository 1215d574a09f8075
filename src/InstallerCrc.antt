-- ===== src/InstallerCrc.antt =====
-- node-stm32f103/bootloader/src/image_installer.c, `CalculateInternalCrc`, `CalculateBackupCrc` and
-- `ValidateBackupImage`: the CRCs of the application region and of the backup, 256 bytes at a time.
pub mod Chunks
pub mod Backup
pub mod Restored
mod Tests
use secure_delta_ota_bootloa.Base.{
  ℕ, zero, suc, ◌+◌, ◌-◌, ◌/◌, Bool, true, false, not, bit_xor, Option, none, some, List, ltb, ◌!=◌,
  if◌then◌else◌,
}
use secure_delta_ota_bootloa.Base.Range.{read_range}
use secure_delta_ota_bootloa.Memory.{application_start_address, application_max_size}
use secure_delta_ota_bootloa.Crc32.{update, initial_value, final_xor}
use secure_delta_ota_bootloa.Flash.{Flash}
use secure_delta_ota_bootloa.NorFlash.{NorFlash}
use secure_delta_ota_bootloa.BackupImage.{BackupImage}
use secure_delta_ota_bootloa.BackupStorage
use secure_delta_ota_bootloa.BackupStorage.{HeaderResult, read_image, load_header}

abbrev pub crc_buffer_size : ℕ
crc_buffer_size = 256

-- The bytes that one round handles.
abbrev pub chunk_of : ℕ → ℕ → ℕ
chunk_of length offset =
    if ltb crc_buffer_size (length - offset) then crc_buffer_size else length - offset

-- Rounds that are enough for so many bytes.
abbrev pub rounds_for : ℕ → ℕ
rounds_for length = (length + 255) / 256

-- The statuses of `ImageInstallerStatus_t` that the checks of the backup return.
pub data BackupCheck : Type 0 where
  accepted rollback_source_invalid backup_verify_failed backup_crc_mismatch : BackupCheck

module _ (flash : Flash) where
  unfoldable pub internal_crc_loop : ℕ → ℕ → ℕ → ℕ → flash.Device → ℕ
  internal_crc_loop zero offset length running d = running
  internal_crc_loop (suc rounds) offset length running d =
      let chunk = chunk_of length offset in
      let buffer = read_range (flash.read d) (application_start_address + offset) chunk in
      let rest = internal_crc_loop rounds (offset + chunk) length (update running buffer) d in
      if not (ltb offset length) then running else rest

  unfoldable pub calculate_internal_crc : ℕ → flash.Device → ℕ
  unfolding internal_crc_loop
  calculate_internal_crc length d =
      bit_xor (internal_crc_loop (rounds_for length) 0 length initial_value d) final_xor

module _ (nor : NorFlash) where
  open nor use {Device}

  -- The rest of the loop, by what a round read.
  abbrev pub after_read :
      (ℕ → Device → Option ℕ × Device) → ℕ → Option (List ℕ) × Device → Option ℕ × Device
  after_read continue running (none, d) = (none, d)
  after_read continue running (some buffer, d) = continue (update running buffer) d

  unfoldable pub backup_crc_loop : ℕ → ℕ → ℕ → Device → Option ℕ × Device
  backup_crc_loop zero offset running d = (some running, d)
  backup_crc_loop (suc rounds) offset running d =
      let chunk = chunk_of application_max_size offset in
      let rest =
        after_read (backup_crc_loop rounds (offset + chunk)) running
          (read_image nor offset chunk d) in
      if not (ltb offset application_max_size) then (some running, d) else rest

  abbrev pub finish : Option ℕ × Device → Option ℕ × Device
  finish (none, d) = (none, d)
  finish (some running, d) = (some (bit_xor running final_xor), d)

  -- `none` is `IMAGE_INSTALLER_BACKUP_VERIFY_FAILED`.
  unfoldable pub calculate_backup_crc : Device → Option ℕ × Device
  unfolding backup_crc_loop
  calculate_backup_crc d =
      finish (backup_crc_loop (rounds_for application_max_size) 0 initial_value d)

  abbrev pub compare_crc : BackupImage → Option ℕ × Device → BackupCheck × Device
  compare_crc header (none, d) = (backup_verify_failed, d)
  compare_crc header (some crc, d) =
      (if crc != header.image_crc32 then backup_crc_mismatch else accepted, d)

  abbrev pub check_header : Option BackupImage → Device → BackupCheck × Device
  check_header none d = (rollback_source_invalid, d)
  check_header (some header) d = compare_crc header (calculate_backup_crc d)

  -- The header that was loaded is handed back where it is valid.
  unfoldable pub validate_backup : Device → BackupCheck × Option BackupImage × Device
  unfolding calculate_backup_crc
  validate_backup d =
      let header = load_header nor d in
      let checked = check_header header.found header.device in (checked.0, header.found, checked.1)
