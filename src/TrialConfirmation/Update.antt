-- ===== src/TrialConfirmation/Update.antt =====
-- node-stm32f103/application/src/trial_confirmation.c: the boot after a confirmation.
use secure_delta_ota_bootloa.Base.{ℕ, ◌≡◌, refl, ap, ◌∙◌, true, some, arith}
use secure_delta_ota_bootloa.Base.Bytes.{IsU32}
use secure_delta_ota_bootloa.BootMetadata.{BootMetadata, code, confirmed, finalize, validate, valid}
use secure_delta_ota_bootloa.BootMetadata.Image.{IsRecord}
use secure_delta_ota_bootloa.BootMetadata.Checks.{valid_of}
use secure_delta_ota_bootloa.BootDecision.{
  finalize_confirmation, evaluate, decide_state, without_application,
}
use secure_delta_ota_bootloa.Flash.{Flash, FlashLaws}
use secure_delta_ota_bootloa.MetadataStorage.{ok, commit, candidate}
use secure_delta_ota_bootloa.MetadataStorage.Newest.{commit-ok}
use secure_delta_ota_bootloa.MetadataStorage.Commit.{commit-load}
use secure_delta_ota_bootloa.TrialBoot.Limit.{stored, stored-IsRecord}
use secure_delta_ota_bootloa.TrialConfirmation.{Confirmation, confirm_now, confirming, is_trial_of}

-- A valid confirmed record is finalized at the next boot, whatever the application's vectors are.
evaluate-confirmed :
    (m : BootMetadata) (application_valid : ℕ)
    → validate (some m) ≡ valid
    → m.state ≡ code confirmed
    → (evaluate (some m) application_valid).action ≡ finalize_confirmation
unfolding evaluate decide_state without_application
evaluate-confirmed m v good state = ground arith

module _ (flash : Flash) (laws : FlashLaws flash) (application_version : ℕ) where
  open flash use {Device}

  confirming-IsRecord : (m : BootMetadata) → IsRecord m → IsRecord (confirming m)
  unfolding confirming
  confirming-IsRecord m h = omega arith

  candidate-confirming :
      (m : BootMetadata) (d : Device)
      → ((candidate flash (confirming m) d).state ≡ code confirmed)
        × ((candidate flash (confirming m) d).pending_version ≡ m.pending_version)
  unfolding candidate finalize confirming
  candidate-confirming m d = (refl, refl)

  abbrev before : Device → BootMetadata
  before d = stored flash laws application_version d

  confirm_now-ok :
      (state : Confirmation) (d : Device)
      → (confirm_now flash application_version state d).success ≡ true
      → ((commit flash (some (confirming (before d))) d).status ≡ ok)
        × ((confirm_now flash application_version state d).device
            ≡ (commit flash (some (confirming (before d))) d).device)
        × ((before d).pending_version ≡ application_version)
  unfolding confirm_now is_trial_of
  confirm_now-ok state d done = ground arith

  -- Once the running application confirmed itself, the next boot loads a valid confirmed record
  -- whose pending version is the one of that application, and decides to finalize the confirmation,
  -- whether the application's vectors are valid or not.
  pub confirm_now-evaluate :
      (state : Confirmation) (d : Device) (application_valid : ℕ)
      → IsU32 application_version
      → (confirm_now flash application_version state d).success ≡ true
      → let next = before (confirm_now flash application_version state d).device in
        (validate (some next) ≡ valid)
        × (next.state ≡ code confirmed)
        × (next.pending_version ≡ application_version)
        × ((evaluate (some next) application_valid).action ≡ finalize_confirmation)
  confirm_now-evaluate state d application_valid word done =
      let (success, left, version) = confirm_now-ok state d done in
      let m = confirming (before d) in
      let words_ok =
        confirming-IsRecord (before d) (stored-IsRecord flash laws application_version d word) in
      let loaded =
        ap (λ r. r.metadata) (commit-load flash laws application_version m d words_ok success).1 in
      let good = valid_of (candidate flash m d) (commit-ok flash laws m d success).accepted in
      let (confirmed_state, pending) = candidate-confirming (before d) d in
      rw (left, loaded)
        (
          good,
          confirmed_state,
          pending ∙ version,
          evaluate-confirmed (candidate flash m d) application_valid good confirmed_state,
        )
