-- ===== src/RollbackProcess.antt =====
-- node-stm32f103/bootloader/src/image_installer.c, `ImageInstaller_ProcessRollback` and the steps
-- around the copy. The fault-injection builds are not modelled, and a NULL result is not.
pub mod Refused
pub mod Success
pub mod Complete
pub mod Begin
pub mod Succeeds
mod Tests
use secure_delta_ota_bootloa.Base.{
  ℕ, ◌+◌, Bool, true, false, not, ◌||◌, bit_and, bit_or, Option, none, some, List, ltb, leb, ◌==◌,
  ◌!=◌, if◌then◌else◌,
}
use secure_delta_ota_bootloa.Memory.{application_start_address, application_max_size}
use secure_delta_ota_bootloa.BootMetadata.{
  BootMetadata, code, idle, rollback, trial_boot, failed, max_boot_attempts,
}
use secure_delta_ota_bootloa.BackupImage.{BackupImage}
use secure_delta_ota_bootloa.Flash.{Flash}
use secure_delta_ota_bootloa.NorFlash.{NorFlash}
use secure_delta_ota_bootloa.Progress.{install_validate, is_install_valid}
use secure_delta_ota_bootloa.FullImage
use secure_delta_ota_bootloa.FullImage.{VectorStatus, validate_vector, vector_valid}
use secure_delta_ota_bootloa.ApplicationJump
use secure_delta_ota_bootloa.ApplicationJump.{
  ApplicationStatus, application_ok, stack_pointer_at, reset_handler_at,
}
use secure_delta_ota_bootloa.MetadataStorage
use secure_delta_ota_bootloa.ExternalStorage
use secure_delta_ota_bootloa.RecordStorage.Checkpoint.{clear}
use secure_delta_ota_bootloa.InstallerCrc.{
  BackupCheck, accepted, calculate_internal_crc, validate_backup,
}
use secure_delta_ota_bootloa.Rollback.{
  InstallerStatus, ok, metadata_commit_failed, progress_invalid, flash_erase_failed,
  flash_program_failed, page_verify_failed, rollback_read_failed, external_flash_init_failed,
  finalize_failed, rollback_source_invalid, rollback_verify_failed, is_ok, Board, CopyResult,
  committed_or, resume_rollback_copy,
}

abbrev pub installer_error_base : ℕ
installer_error_base = 0x00080000

abbrev pub rollback_trial_limit_base : ℕ
rollback_trial_limit_base = 0x0008B000

abbrev pub rollback_invalid_trial : ℕ
rollback_invalid_trial = 0x0008B100

abbrev pub rollback_install_base : ℕ
rollback_install_base = 0x0008B200

-- The values of `ImageInstallerStatus_t`.
abbrev pub status_code : InstallerStatus → ℕ
status_code ok = 0
status_code external_flash_init_failed = 2
status_code metadata_commit_failed = 8
status_code progress_invalid = 9
status_code flash_erase_failed = 10
status_code flash_program_failed = 11
status_code page_verify_failed = 12
status_code finalize_failed = 16
status_code rollback_source_invalid = 23
status_code rollback_read_failed = 24
status_code rollback_verify_failed = 25

unfoldable pub installer_error : InstallerStatus → ℕ
installer_error status = bit_or installer_error_base (status_code status)

unfoldable pub rollback_diagnostic : BootMetadata → ℕ
rollback_diagnostic m =
    if m.state == code rollback
    then m.last_error
    else if leb max_boot_attempts m.boot_attempts
    then bit_or rollback_trial_limit_base (bit_and m.boot_attempts 0xFF)
    else if m.state == code trial_boot
    then rollback_invalid_trial
    else rollback_install_base

abbrev pub is_accepted : BackupCheck → Bool
is_accepted accepted = true
is_accepted _ = false

abbrev pub is_vector_valid : VectorStatus → Bool
is_vector_valid vector_valid = true
is_vector_valid _ = false

abbrev pub is_application_ok : ApplicationStatus → Bool
is_application_ok application_ok = true
is_application_ok _ = false

-- The record that starts a rollback, and the one that ends it.
unfoldable pub begun : ℕ → BootMetadata → BootMetadata
begun diagnostic m = record m { state = code rollback; copy_offset = 0; last_error = diagnostic }

unfoldable pub rolled_back : ℕ → BackupImage → BootMetadata → BootMetadata
rolled_back diagnostic header m = record m {
  state = code idle;
  active_version = header.active_version;
  pending_version = 0;
  active_update_id = 0;
  received_size = 0;
  expected_size = 0;
  copy_offset = 0;
  boot_attempts = 0;
  last_error = diagnostic;
}

module _ (flash : Flash) (nor : NorFlash) where
  -- `CommitMetadata`, with the status that the caller derives from a failure.
  unfoldable pub commit_metadata :
      InstallerStatus → BootMetadata → Board flash nor → CopyResult flash nor
  commit_metadata failure m b =
      let done = MetadataStorage.commit flash (some m) b.internal in
      let after : Board flash nor = record { internal = done.device; external = b.external } in
      if MetadataStorage.is_ok done.status
      then record { status = ok; metadata = committed_or flash nor m done.committed; board = after }
      else record { status = failure; metadata = m; board = after }

  -- `BestEffortMarkFailed`, before `status` is returned.
  unfoldable pub mark_failed :
      InstallerStatus → InstallerStatus → BootMetadata → Board flash nor → CopyResult flash nor
  mark_failed reason status m b =
      let marked : BootMetadata = record m {
        state = code failed;
        last_error = installer_error reason;
      } in
      let done = commit_metadata ok marked b in
      record { status = status; metadata = done.metadata; board = done.board }

  unfoldable pub begin_rollback : ℕ → BootMetadata → Board flash nor → CopyResult flash nor
  begin_rollback diagnostic m b = commit_metadata metadata_commit_failed (begun diagnostic m) b

  unfoldable pub verify_rolled_back : BackupImage → Board flash nor → InstallerStatus
  verify_rolled_back header b =
      let memory = flash.read b.internal in
      if calculate_internal_crc flash application_max_size b.internal != header.image_crc32
      then rollback_verify_failed
      else if not (
          is_vector_valid (
            validate_vector application_max_size (stack_pointer_at memory application_start_address)
              (reset_handler_at memory application_start_address)))
      then rollback_verify_failed
      else if not (is_application_ok (ApplicationJump.validate application_start_address memory))
      then rollback_verify_failed
      else ok

  unfoldable pub finalize_rollback :
      ℕ → BackupImage → BootMetadata → Board flash nor → CopyResult flash nor
  finalize_rollback diagnostic header m b =
      let cleared : Board flash nor = record {
        internal = b.internal;
        external = (clear nor b.external).device;
      } in
      commit_metadata finalize_failed (rolled_back diagnostic header m) cleared

  -- The rest of the rollback, from the copy on.
  unfoldable pub copy_and_finish :
      ℕ → BackupImage → BootMetadata → Board flash nor → CopyResult flash nor
  copy_and_finish diagnostic header m b =
      let copied = resume_rollback_copy flash nor m b in
      let verified = verify_rolled_back header copied.board in
      if not (is_ok copied.status)
      then mark_failed copied.status copied.status copied.metadata copied.board
      else if not (is_ok verified)
      then mark_failed verified verified copied.metadata copied.board
      else finalize_rollback diagnostic header copied.metadata copied.board

  -- The rollback once the backup was accepted.
  unfoldable pub run_rollback : BackupImage → BootMetadata → Board flash nor → CopyResult flash nor
  run_rollback header m b =
      let diagnostic = rollback_diagnostic m in
      let started = begin_rollback diagnostic m b in
      if m.state != code rollback
      then if is_ok started.status
        then copy_and_finish diagnostic header started.metadata started.board
        else started
      else if not (is_install_valid (install_validate application_max_size m.copy_offset))
      then mark_failed progress_invalid progress_invalid m b
      else copy_and_finish diagnostic header m b

  abbrev pub run_accepted :
      BackupCheck × Option BackupImage × nor.Device
      → BootMetadata
      → flash.Device
      → CopyResult flash nor
  run_accepted (accepted, some header, d) m internal =
      run_rollback header m (record { internal = internal; external = d })
  run_accepted (_, _, d) m internal =
      mark_failed rollback_source_invalid rollback_source_invalid m
        (record { internal = internal; external = d })

  unfoldable pub process_rollback : BootMetadata → Board flash nor → CopyResult flash nor
  process_rollback m b =
      let ready = ExternalStorage.init nor b.external in
      let after : Board flash nor = record { internal = b.internal; external = ready.1 } in
      let run = run_accepted (validate_backup nor ready.1) m b.internal in
      if not ready.0
      then record { status = external_flash_init_failed; metadata = m; board = after }
      else run
