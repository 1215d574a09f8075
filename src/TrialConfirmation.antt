-- ===== src/TrialConfirmation.antt =====
-- node-stm32f103/application/src/trial_confirmation.c: the application that runs on trial confirms
-- itself by a commit. The reset that follows a confirmation ends the run and is not modelled.
pub mod Update
mod Tests
use secure_delta_ota_bootloa.Base.{
  ℕ, ◌-◌, ◌+◌, ◌^◌, ◌%◌, Bool, true, false, not, ◌&&◌, some, ltb, leb, ◌==◌, if◌then◌else◌, bit_or,
}
use secure_delta_ota_bootloa.Base.Bytes.{u32}
use secure_delta_ota_bootloa.BootMetadata.{
  BootMetadata, code, trial_boot, confirmed, max_boot_attempts,
}
use secure_delta_ota_bootloa.Flash.{Flash}
use secure_delta_ota_bootloa.MetadataStorage.{
  StorageStatus, LoadResult, CommitResult, load, commit, is_ok, ok, defaults_used, bad_argument,
  erase_failed, program_failed, verify_failed,
}

abbrev pub confirm_delay_ms : ℕ
confirm_delay_ms = 750

-- The three static variables.
pub record Confirmation : Type 0 where
  pub trial_active : Bool
  pub trial_confirmed : Bool
  pub trial_start_ms : ℕ

-- The value that the enumeration gives a status.
abbrev pub status_code : StorageStatus → ℕ
status_code ok = 0
status_code defaults_used = 1
status_code bad_argument = 2
status_code erase_failed = 3
status_code program_failed = 4
status_code verify_failed = 5

-- What `TrialConfirmation_ConfirmNow` returns and leaves.
pub record Confirmed (Device : Type 0) : Type 0 where
  pub success : Bool
  pub detail : ℕ
  pub confirmation : Confirmation
  pub device : Device

-- The test of `LoadTrialMetadata` on what was loaded.
unfoldable pub is_trial_of : ℕ → LoadResult → Bool
is_trial_of application_version r =
    is_ok r.status
    && r.metadata.state == code trial_boot
    && r.metadata.pending_version == application_version
    && ltb 0 r.metadata.boot_attempts
    && leb r.metadata.boot_attempts max_boot_attempts

unfoldable pub confirming : BootMetadata → BootMetadata
confirming m = record m { state = code confirmed; copy_offset = 0; last_error = 0 }

module _ (flash : Flash) (application_version : ℕ) where
  open flash use {Device}

  unfoldable pub init : ℕ → Device → Confirmation
  unfolding is_trial_of
  init now_ms d = record {
    trial_active = is_trial_of application_version (load flash application_version d);
    trial_confirmed = false;
    trial_start_ms = now_ms;
  }

  unfoldable pub confirm_now : Confirmation → Device → Confirmed Device
  confirm_now state d =
      let loaded = load flash application_version d in
      let done = commit flash (some (confirming loaded.metadata)) d in
      if not (is_trial_of application_version loaded)
      then record { success = false; detail = 1; confirmation = state; device = d }
      else if not (is_ok done.status)
      then record {
        success = false;
        detail = bit_or 0x100 (status_code done.status);
        confirmation = state;
        device = done.device;
      }
      else record {
        success = true;
        detail = 0;
        confirmation = record state { trial_confirmed = true };
        device = done.device;
      }

  -- Whether `TrialConfirmation_Process` calls `ConfirmNow`.
  unfoldable pub is_due : ℕ → Confirmation → Bool
  is_due now_ms state =
      state.trial_active
      && not state.trial_confirmed
      && leb confirm_delay_ms (u32 (now_ms + (2 ^ 32 - state.trial_start_ms)))
