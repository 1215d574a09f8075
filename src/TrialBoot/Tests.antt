-- ===== src/TrialBoot/Tests.antt =====
-- Three trial boots in a row on a flash in memory.
use secure_delta_ota_bootloa.Base.{ℕ, ◌+◌, ◌≤◌, ◌≡◌, refl, some, arith}
use secure_delta_ota_bootloa.BootMetadata.{
  BootMetadata, init, finalize, validate, valid, code, trial_boot, confirmed, max_boot_attempts,
}
use secure_delta_ota_bootloa.BootMetadata.Image.{IsRecord}
use secure_delta_ota_bootloa.BootDecision.{
  jump_active, resume_rollback, evaluate, decide_state, without_application,
}
use secure_delta_ota_bootloa.MetadataStorage.{load}
use secure_delta_ota_bootloa.MetadataStorage.Ram.{ram, ram_laws, holding, storage_code}
use secure_delta_ota_bootloa.TrialBoot.{
  trial_ok, counted, finished, commit_working, prepare_attempt, finalize_confirmation,
}
use secure_delta_ota_bootloa.TrialBoot.Attempts.{prepare_attempt-load, finalize_confirmation-jump}
use secure_delta_ota_bootloa.TrialBoot.Limit.{
  Trials, start, again, stored, after_attempt, Trials-counted, Trials-exhausted,
}

-- A downloaded and installed update 3 to version 8, before its first trial.
abbrev installed : BootMetadata
installed = finalize (record (init 7) {
  generation = 1;
  state = code trial_boot;
  pending_version = 8;
  active_update_id = 3;
  received_size = 4096;
  expected_size = 4096;
})

abbrev confirmed_record : BootMetadata
confirmed_record = record installed { state = code confirmed; boot_attempts = 1 }

abbrev fresh : ℕ → ℕ
fresh = holding installed

installed-IsRecord : IsRecord installed
unfolding storage_code
installed-IsRecord = omega arith

confirmed-IsRecord : IsRecord confirmed_record
unfolding storage_code
confirmed-IsRecord = omega arith

trial_code : Unit {0}
unfolding storage_code prepare_attempt finalize_confirmation commit_working counted finished
    evaluate decide_state without_application
trial_code = tt

first_prepared : (prepare_attempt ram (some installed) fresh).status ≡ trial_ok
unfolding trial_code
first_prepared = refl

prepare_attempt-load_example :
    let next = (load ram 7 (prepare_attempt ram (some installed) fresh).device).metadata in
    (validate (some next) ≡ valid)
    × (next.state ≡ code trial_boot)
    × (next.boot_attempts ≡ installed.boot_attempts + 1)
    × (next.boot_attempts ≤ max_boot_attempts)
prepare_attempt-load_example =
    prepare_attempt-load ram ram_laws 7 installed fresh installed-IsRecord first_prepared

confirmation_done : (finalize_confirmation ram (some confirmed_record) fresh).status ≡ trial_ok
unfolding trial_code
confirmation_done = refl

finalize_confirmation-jump_example :
    let next =
      (load ram 7 (finalize_confirmation ram (some confirmed_record) fresh).device).metadata in
    (next.active_version ≡ confirmed_record.pending_version)
    × ((evaluate (some next) 1).action ≡ jump_active)
finalize_confirmation-jump_example =
    finalize_confirmation-jump ram ram_laws 7 confirmed_record fresh 1 confirmed-IsRecord
      confirmation_done (omega arith)

abbrev second : ℕ → ℕ
second = (after_attempt ram ram_laws 7 fresh).device

abbrev third : ℕ → ℕ
third = (after_attempt ram ram_laws 7 second).device

abbrev fourth : ℕ → ℕ
fourth = (after_attempt ram ram_laws 7 third).device

first_trial : Trials ram ram_laws 7 fresh 1 second
unfolding trial_code
first_trial = again 1 start refl refl

Trials-counted_example :
    let after = stored ram ram_laws 7 second in
    (validate (some after) ≡ valid)
    × (after.state ≡ code trial_boot)
    × (after.boot_attempts ≡ (stored ram ram_laws 7 fresh).boot_attempts + 1)
    × (after.boot_attempts ≤ max_boot_attempts)
Trials-counted_example = Trials-counted ram ram_laws 7 fresh 0 second (omega arith) first_trial

second_trial : Trials ram ram_laws 7 fresh 2 third
unfolding trial_code
second_trial = again 1 first_trial refl refl

third_trial : Trials ram ram_laws 7 fresh 3 fourth
unfolding trial_code
third_trial = again 1 second_trial refl refl

Trials-exhausted_example :
    (evaluate (some (stored ram ram_laws 7 fourth)) 1).action ≡ resume_rollback
Trials-exhausted_example = Trials-exhausted ram ram_laws 7 fresh fourth 1 (omega arith) third_trial
