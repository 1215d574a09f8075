-- ===== src/TrialBoot.antt =====
-- node-stm32f103/bootloader/src/trial_boot.c: counting a trial boot and closing a confirmed update,
-- each by one commit of the metadata. The watchdog's registers are not modelled.
pub mod Attempts
pub mod Limit
mod Tests
use secure_delta_ota_bootloa.Base.{
  ℕ, ◌+◌, ◌^◌, Bool, true, false, ◌||◌, Option, none, some, ◌==◌, ◌!=◌, leb, if◌then◌else◌,
}
use secure_delta_ota_bootloa.Base.Bytes.{u32}
use secure_delta_ota_bootloa.BootMetadata.{
  BootMetadata, code, idle, trial_boot, confirmed, max_boot_attempts,
}
use secure_delta_ota_bootloa.Flash.{Flash}
use secure_delta_ota_bootloa.MetadataStorage.{StorageStatus, is_ok, commit, CommitResult}

pub data TrialStatus : Type 0 where
  trial_ok invalid_state attempt_limit metadata_commit_failed : TrialStatus

-- The status, the committed record where the caller's is written, and the device.
pub record TrialResult (Device : Type 0) : Type 0 where
  pub status : TrialStatus
  pub committed : Option BootMetadata
  pub device : Device

-- The record that counts one more attempt.
unfoldable pub counted : BootMetadata → BootMetadata
counted m = record m { boot_attempts = u32 (m.boot_attempts + 1); last_error = 0 }

-- The record of a finished update.
unfoldable pub finished : BootMetadata → BootMetadata
finished m = record m {
  state = code idle;
  active_version = m.pending_version;
  pending_version = 0;
  active_update_id = 0;
  received_size = 0;
  expected_size = 0;
  copy_offset = 0;
  boot_attempts = 0;
  last_error = 0;
}

abbrev pub stopped : {Device : Type 0} → TrialStatus → Device → TrialResult Device
stopped s d = record { status = s; committed = none; device = d }

module _ (flash : Flash) where
  open flash use {Device}

  -- `Commit` of the working copy, and the status that both callers derive from it.
  unfoldable pub commit_working : BootMetadata → Device → TrialResult Device
  commit_working working d =
      let done = commit flash (some working) d in
      if is_ok done.status
      then record { status = trial_ok; committed = done.committed; device = done.device }
      else stopped metadata_commit_failed done.device

  unfoldable pub prepare_attempt : Option BootMetadata → Device → TrialResult Device
  prepare_attempt none d = stopped invalid_state d
  prepare_attempt (some m) d =
      if m.state != code trial_boot
      then stopped invalid_state d
      else if leb max_boot_attempts m.boot_attempts
      then stopped attempt_limit d
      else commit_working (counted m) d

  unfoldable pub finalize_confirmation : Option BootMetadata → Device → TrialResult Device
  finalize_confirmation none d = stopped invalid_state d
  finalize_confirmation (some m) d =
      if m.state != code confirmed || m.pending_version == 0
      then stopped invalid_state d
      else commit_working (finished m) d
