-- ===== src/RollbackProcess/Refused.antt =====
-- node-stm32f103/bootloader/src/image_installer.c: a rollback without a backup that is accepted.
use secure_delta_ota_bootloa.Base.{
  ℕ, ◌≡◌, ◌≢◌, inl, inr, refl, true, Option, none, some, List, arith, Bool-cases,
}
use secure_delta_ota_bootloa.Base.Range.{read_range, read_range-eq}
use secure_delta_ota_bootloa.Memory.{application_start_address, application_max_size}
use secure_delta_ota_bootloa.BootMetadata.{BootMetadata}
use secure_delta_ota_bootloa.BackupImage.{BackupImage}
use secure_delta_ota_bootloa.Flash.{Flash, FlashLaws}
use secure_delta_ota_bootloa.NorFlash.{NorFlash}
use secure_delta_ota_bootloa.MetadataStorage
use secure_delta_ota_bootloa.MetadataStorage.Commit.{commit-frame}
use secure_delta_ota_bootloa.ExternalStorage
use secure_delta_ota_bootloa.InstallerCrc.{
  BackupCheck, accepted, rollback_source_invalid, backup_verify_failed, backup_crc_mismatch,
  validate_backup,
}
use secure_delta_ota_bootloa.Rollback
use secure_delta_ota_bootloa.Rollback.{
  InstallerStatus, ok, external_flash_init_failed, Board, CopyResult,
}
use secure_delta_ota_bootloa.RollbackProcess.{
  commit_metadata, mark_failed, run_accepted, process_rollback,
}

module _ (flash : Flash) (laws : FlashLaws flash) (nor : NorFlash) where
  abbrev pub region : flash.Device → List ℕ
  region d = read_range (flash.read d) application_start_address application_max_size

  pub commit_metadata-region :
      (failure : InstallerStatus) (m : BootMetadata) (b : Board flash nor)
      → region (commit_metadata flash nor failure m b).board.internal ≡ region b.internal
  commit_metadata-region failure m b =
      let done = MetadataStorage.commit flash (some m) b.internal in
      let kept : region done.device ≡ region b.internal =
        read_range-eq (flash.read done.device) (flash.read b.internal) application_start_address
          application_max_size
          (λ a lo hi.
            commit-frame flash laws m b.internal a (inl (omega (arith, hi)))
              (inl (omega (arith, hi)))) in
      elim (Bool-cases (MetadataStorage.is_ok done.status)) [
        | inl v ↦ unfold commit_metadata in rw v kept
        | inr v ↦ unfold commit_metadata in rw v kept
      ]

  -- What a rollback that was refused returns and leaves.
  abbrev Untouched : BootMetadata → flash.Device → CopyResult flash nor → Type 0
  Untouched m internal result =
      (result.status ≡ Rollback.rollback_source_invalid)
      × (region result.board.internal ≡ region internal)

  refused :
      (m : BootMetadata) (internal : flash.Device)
      (checked : BackupCheck × Option BackupImage × nor.Device)
      → (checked.0 ≢ accepted)
      → Untouched m internal (run_accepted flash nor checked m internal)
  refused m internal (accepted, none, d) ne = absurd (ne refl)
  refused m internal (accepted, some header, d) ne = absurd (ne refl)
  refused m internal (rollback_source_invalid, h, d) ne =
      unfold mark_failed in
      (refl, commit_metadata-region ok _ (record { internal = internal; external = d }))
  refused m internal (backup_verify_failed, h, d) ne =
      unfold mark_failed in
      (refl, commit_metadata-region ok _ (record { internal = internal; external = d }))
  refused m internal (backup_crc_mismatch, h, d) ne =
      unfold mark_failed in
      (refl, commit_metadata-region ok _ (record { internal = internal; external = d }))

  -- When the external flash is initialized but its backup is not accepted, because its header or its
  -- CRC is wrong or it cannot be read, a rollback reports an invalid source and leaves the whole
  -- application region as it was.
  pub rollback_refused :
      (m : BootMetadata) (b : Board flash nor)
      → (ExternalStorage.init nor b.external).0 ≡ true
      → (validate_backup nor (ExternalStorage.init nor b.external).1).0 ≢ accepted
      → let result = process_rollback flash nor m b in
        (result.status ≡ Rollback.rollback_source_invalid)
        × (region result.board.internal ≡ region b.internal)
  rollback_refused m b ready ne =
      unfold process_rollback in
      rw ready
        (refused m b.internal (validate_backup nor (ExternalStorage.init nor b.external).1) ne)
