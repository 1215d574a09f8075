-- ===== src/BootDecision.antt =====
-- node-stm32f103/bootloader/src/boot_decision.c: what the bootloader does after reset, from the
-- stored metadata and the test of the application's vector table.
pub mod Safety
mod Tests
use secure_delta_ota_bootloa.Base.{
  ℕ, Bool, true, false, ◌&&◌, ◌||◌, Option, none, some, ◌==◌, leb, not, if◌then◌else◌,
}
use secure_delta_ota_bootloa.BootMetadata.{
  UpdateState, BootMetadata, validate, state_of, is_valid_status, max_boot_attempts, idle,
  receiving, artifact_ready, verifying_container, verifying_base, patching, image_ready, backing_up,
  installing, verifying_install, trial_boot, confirmed, rollback, failed,
}

pub data BootAction : Type 0 where
  jump_active resume_download process_artifact restart_validation restart_patch : BootAction
  continue_backup resume_install verify_install boot_trial finalize_confirmation : BootAction
  resume_rollback stay_recovery : BootAction

pub data Reason : Type 0 where
  none_given application_invalid metadata_invalid trial_limit_reached failed_state : Reason

pub record Decision : Type 0 where
  pub action : BootAction
  pub reason : Reason

abbrev pub because : BootAction → Reason → Decision
because a r = record { action = a; reason = r }

-- The `switch` on the stored state.
unfoldable pub decide_state : Option UpdateState → ℕ → Decision
decide_state (some idle) attempts = because jump_active none_given
decide_state (some receiving) attempts = because resume_download none_given
decide_state (some artifact_ready) attempts = because process_artifact none_given
decide_state (some verifying_container) attempts = because restart_validation none_given
decide_state (some verifying_base) attempts = because restart_validation none_given
decide_state (some patching) attempts = because restart_patch none_given
decide_state (some image_ready) attempts = because continue_backup none_given
decide_state (some backing_up) attempts = because continue_backup none_given
decide_state (some installing) attempts = because resume_install none_given
decide_state (some verifying_install) attempts = because verify_install none_given
decide_state (some trial_boot) attempts =
    if leb max_boot_attempts attempts
    then because resume_rollback trial_limit_reached
    else because boot_trial none_given
decide_state (some confirmed) attempts = because finalize_confirmation none_given
decide_state (some rollback) attempts = because resume_rollback none_given
decide_state (some failed) attempts = because stay_recovery failed_state
decide_state none attempts = because stay_recovery failed_state

-- What becomes of a decision when the application's vectors are not valid.
unfoldable pub without_application : BootAction → Decision → Decision
without_application boot_trial decision = because resume_rollback application_invalid
without_application jump_active decision = because stay_recovery application_invalid
without_application resume_download decision = because stay_recovery application_invalid
without_application _ decision = decision

-- `application_valid` is the `uint8_t` of the source.
unfoldable pub evaluate : Option BootMetadata → ℕ → Decision
unfolding decide_state without_application
evaluate none application_valid = because stay_recovery metadata_invalid
evaluate (some m) application_valid =
    let decision = decide_state (state_of m.state) m.boot_attempts in
    if not (is_valid_status (validate (some m)))
    then because stay_recovery metadata_invalid
    else if application_valid == 0
    then without_application decision.action decision
    else decision
