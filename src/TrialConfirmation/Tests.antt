-- ===== src/TrialConfirmation/Tests.antt =====
-- Version 8 confirms itself in its first trial boot.
use secure_delta_ota_bootloa.Base.{ℕ, ◌≡◌, refl, true, false, some, arith}
use secure_delta_ota_bootloa.BootMetadata.{
  init, finalize, validate, valid, code, trial_boot, confirmed,
}
use secure_delta_ota_bootloa.BootDecision.{finalize_confirmation, evaluate}
use secure_delta_ota_bootloa.MetadataStorage.Ram.{ram, ram_laws, holding, storage_code}
use secure_delta_ota_bootloa.TrialBoot.Limit.{stored}
use secure_delta_ota_bootloa.TrialConfirmation.{Confirmation, confirm_now, confirming, is_trial_of}
use secure_delta_ota_bootloa.TrialConfirmation.Update.{confirm_now-evaluate}

abbrev on_trial : ℕ → ℕ
on_trial = holding (
    finalize (record (init 7) {
      generation = 2;
      state = code trial_boot;
      pending_version = 8;
      active_update_id = 3;
      received_size = 4096;
      expected_size = 4096;
      boot_attempts = 1;
    }))

abbrev running : Confirmation
running = record { trial_active = true; trial_confirmed = false; trial_start_ms = 10 }

running_confirmed : (confirm_now ram 8 running on_trial).success ≡ true
unfolding storage_code confirm_now confirming is_trial_of
running_confirmed = refl

confirm_now-evaluate_example :
    let next = stored ram ram_laws 8 (confirm_now ram 8 running on_trial).device in
    (validate (some next) ≡ valid)
    × (next.state ≡ code confirmed)
    × (next.pending_version ≡ 8)
    × ((evaluate (some next) 0).action ≡ finalize_confirmation)
confirm_now-evaluate_example =
    confirm_now-evaluate ram ram_laws 8 running on_trial 0 (omega arith) running_confirmed
