-- ===== src/BootDecision/Tests.antt =====
-- Decisions on concrete records.
use secure_delta_ota_bootloa.Base.{ℕ, ◌<◌, ◌≡◌, ◌≢◌, ◌↔◌, inl, refl, some}
use secure_delta_ota_bootloa.BootMetadata.{
  BootMetadata, init, finalize, validate, valid, code, trial_boot, max_boot_attempts,
}
use secure_delta_ota_bootloa.MetadataStorage.Ram.{storage_code}
use secure_delta_ota_bootloa.BootDecision.{
  jump_active, boot_trial, evaluate, decide_state, without_application,
}
use secure_delta_ota_bootloa.BootDecision.Safety.{evaluate-trial_iff, evaluate-runs_application}

abbrev factory : BootMetadata
factory = finalize (record (init 7) { generation = 1 })

abbrev vectors_valid : ℕ
vectors_valid = 1

factory_jumps : (evaluate (some factory) vectors_valid).action ≡ jump_active
unfolding storage_code evaluate decide_state without_application
factory_jumps = refl

evaluate-trial_iff_example : ((evaluate (some factory) vectors_valid).action ≡ boot_trial) ↔ (
    (validate (some factory) ≡ valid)
    × (factory.state ≡ code trial_boot)
    × (factory.boot_attempts < max_boot_attempts)
    × (vectors_valid ≢ 0))
evaluate-trial_iff_example = evaluate-trial_iff factory vectors_valid

evaluate-runs_application_example : (validate (some factory) ≡ valid) × (vectors_valid ≢ 0)
evaluate-runs_application_example =
    evaluate-runs_application factory vectors_valid (inl factory_jumps)
