-- ===== src/InstallerCrc/Restored.antt =====
-- node-stm32f103/bootloader/src/image_installer.c: the CRC that `VerifyRolledBackApplication` compares,
-- after the copy of a backup that `ValidateBackupImage` accepted.
use secure_delta_ota_bootloa.Base.{◌≡◌, some, ap, ◌∙◌}
use secure_delta_ota_bootloa.Base.Range.{read_range-eq}
use secure_delta_ota_bootloa.Memory.{application_max_size}
use secure_delta_ota_bootloa.Crc32.{calculate}
use secure_delta_ota_bootloa.BootMetadata.{BootMetadata}
use secure_delta_ota_bootloa.BootMetadata.Image.{IsRecord}
use secure_delta_ota_bootloa.Flash.{Flash, FlashLaws}
use secure_delta_ota_bootloa.NorFlash.{NorFlash, NorLaws}
use secure_delta_ota_bootloa.BackupImage.{BackupImage}
use secure_delta_ota_bootloa.BackupStorage.Frame.{image_start}
use secure_delta_ota_bootloa.Rollback.{ok, Board, resume_rollback_copy}
use secure_delta_ota_bootloa.Rollback.Restore.{application_bytes, backup_bytes, rollback_restores}
use secure_delta_ota_bootloa.InstallerCrc.{accepted, validate_backup, calculate_internal_crc}
use secure_delta_ota_bootloa.InstallerCrc.Chunks.{calculate_internal_crc_lem}
use secure_delta_ota_bootloa.InstallerCrc.Backup.{
  validate_backup-accepted, validate_backup-SameMemory,
}

module _ (flash : Flash) (flash_laws : FlashLaws flash) (nor : NorFlash)
    (nor_laws : NorLaws nor) where
  -- If a backup was accepted and its copy into the application region reports success, then the CRC of
  -- the application region, computed in chunks, is the one in the header of the backup.
  pub rollback_crc_matches :
      (m : BootMetadata) (b : Board flash nor) (header : BackupImage)
      → let checked = validate_backup nor b.external in
        let start : Board flash nor = record { internal = b.internal; external = checked.2 } in
        let result = resume_rollback_copy flash nor m start in
        IsRecord m
        → checked.0 ≡ accepted
        → checked.1 ≡ some header
        → application_bytes flash flash_laws nor nor_laws m.copy_offset start
          ≡ backup_bytes flash flash_laws nor nor_laws m.copy_offset start
        → result.status ≡ ok
        → calculate_internal_crc flash application_max_size result.board.internal
          ≡ header.image_crc32
  rollback_crc_matches m b header words_ok good found before done =
      let checked = validate_backup nor b.external in
      let start : Board flash nor = record { internal = b.internal; external = checked.2 } in
      let result = resume_rollback_copy flash nor m start in
      calculate_internal_crc_lem flash application_max_size result.board.internal
      ∙ ap calculate (
          (rollback_restores flash flash_laws nor nor_laws m start words_ok before done).1
          ∙ read_range-eq (nor.memory checked.2) (nor.memory b.external) image_start
              application_max_size
              (λ a lo hi. validate_backup-SameMemory nor nor_laws b.external a))
      ∙ validate_backup-accepted nor nor_laws b.external header good found
