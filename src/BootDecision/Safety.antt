-- ===== src/BootDecision/Safety.antt =====
-- node-stm32f103/bootloader/src/boot_decision.c: the conditions of the actions that start an
-- application.
use secure_delta_ota_bootloa.Base.{ℕ, ◌<◌, ◌≡◌, ◌≢◌, ◌↔◌, ◌⊎◌, ◌≤◌, some, arith}
use secure_delta_ota_bootloa.BootMetadata.{
  BootMetadata, validate, valid, code, idle, trial_boot, max_boot_attempts,
}
use secure_delta_ota_bootloa.BootDecision.{
  jump_active, boot_trial, resume_download, resume_rollback, evaluate, decide_state,
  without_application,
}

-- The bootloader jumps to the active application exactly if the metadata validates in the idle
-- state and the application's vectors are valid.
pub evaluate-jump_iff :
    (m : BootMetadata) (application_valid : ℕ)
    → ((evaluate (some m) application_valid).action ≡ jump_active)
      ↔ ((validate (some m) ≡ valid) × (m.state ≡ code idle) × (application_valid ≢ 0))
unfolding evaluate decide_state without_application
evaluate-jump_iff m v = ground arith

-- A trial boot is started exactly if the metadata validates in the trial state, fewer than three
-- attempts were made and the application's vectors are valid.
pub evaluate-trial_iff :
    (m : BootMetadata) (application_valid : ℕ)
    → ((evaluate (some m) application_valid).action ≡ boot_trial) ↔ (
        (validate (some m) ≡ valid)
        × (m.state ≡ code trial_boot)
        × (m.boot_attempts < max_boot_attempts)
        × (application_valid ≢ 0))
unfolding evaluate decide_state without_application
evaluate-trial_iff m v = ground arith

-- A valid record in the trial state with three attempts is rolled back, whatever the vectors are.
pub evaluate-limit :
    (m : BootMetadata) (application_valid : ℕ)
    → validate (some m) ≡ valid
    → m.state ≡ code trial_boot
    → max_boot_attempts ≤ m.boot_attempts
    → (evaluate (some m) application_valid).action ≡ resume_rollback
unfolding evaluate decide_state without_application
evaluate-limit m v good state many = ground arith

-- The bootloader goes on to run the application it finds, by a jump, a resumed download or a trial,
-- only if the metadata validates and the application's vectors are valid.
pub evaluate-runs_application :
    (m : BootMetadata) (application_valid : ℕ)
    → ((evaluate (some m) application_valid).action ≡ jump_active)
      ⊎ ((evaluate (some m) application_valid).action ≡ resume_download)
      ⊎ ((evaluate (some m) application_valid).action ≡ boot_trial)
    → (validate (some m) ≡ valid) × (application_valid ≢ 0)
unfolding evaluate decide_state without_application
evaluate-runs_application m v runs = ground arith
