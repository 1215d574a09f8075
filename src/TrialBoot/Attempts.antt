-- ===== src/TrialBoot/Attempts.antt =====
-- node-stm32f103/bootloader/src/trial_boot.c: the next boot after `TrialBoot_PrepareAttempt` and after
-- `TrialBoot_FinalizeConfirmation`.
use secure_delta_ota_bootloa.Base.{
  ℕ, ◌+◌, ◌%◌, ◌^◌, ◌≤◌, ◌<◌, ◌≡◌, ◌≢◌, refl, ap, sym, ◌∙◌, some, arith,
}
use secure_delta_ota_bootloa.BootMetadata.{
  BootMetadata, code, idle, trial_boot, validate, valid, finalize, max_boot_attempts,
}
use secure_delta_ota_bootloa.BootMetadata.Image.{IsRecord}
use secure_delta_ota_bootloa.BootMetadata.Checks.{valid_of}
use secure_delta_ota_bootloa.BootDecision.{jump_active, evaluate}
use secure_delta_ota_bootloa.BootDecision.Safety.{evaluate-jump_iff}
use secure_delta_ota_bootloa.Flash.{Flash, FlashLaws}
use secure_delta_ota_bootloa.MetadataStorage.{ok, load, commit, candidate}
use secure_delta_ota_bootloa.MetadataStorage.Newest.{commit-ok}
use secure_delta_ota_bootloa.MetadataStorage.Commit.{commit-load}
use secure_delta_ota_bootloa.TrialBoot.{
  trial_ok, counted, finished, commit_working, prepare_attempt, finalize_confirmation,
}

module _ (flash : Flash) (laws : FlashLaws flash) where
  open flash use {Device}

  commit_working-ok :
      (working : BootMetadata) (d : Device)
      → (commit_working flash working d).status ≡ trial_ok
      → ((commit flash (some working) d).status ≡ ok)
        × ((commit_working flash working d).device ≡ (commit flash (some working) d).device)
  unfolding commit_working
  commit_working-ok working d done = ground arith

  -- The record that the next boot loads after a commit of a working copy.
  commit_working-load :
      (v : ℕ) (working : BootMetadata) (d : Device)
      → IsRecord working
      → (commit_working flash working d).status ≡ trial_ok
      → ((load flash v (commit_working flash working d).device).metadata
          ≡ candidate flash working d)
        × (validate (some (candidate flash working d)) ≡ valid)
  commit_working-load v working d words_ok done =
      let (success, left) = commit_working-ok working d done in
      (
        rw left (ap (λ r. r.metadata) (commit-load flash laws v working d words_ok success).1),
        valid_of (candidate flash working d) (commit-ok flash laws working d success).accepted,
      )

  counted-IsRecord : (m : BootMetadata) → IsRecord m → IsRecord (counted m)
  unfolding counted
  counted-IsRecord m h = omega arith

  finished-IsRecord : (m : BootMetadata) → IsRecord m → IsRecord (finished m)
  unfolding finished
  finished-IsRecord m h = omega arith

  prepare_attempt-working :
      (m : BootMetadata) (d : Device)
      → (prepare_attempt flash (some m) d).status ≡ trial_ok
      → (m.state ≡ code trial_boot)
        × (m.boot_attempts < max_boot_attempts)
        × (prepare_attempt flash (some m) d ≡ commit_working flash (counted m) d)
  prepare_attempt-working m d done = unfold prepare_attempt in ground arith

  finalize_confirmation-working :
      (m : BootMetadata) (d : Device)
      → (finalize_confirmation flash (some m) d).status ≡ trial_ok
      → finalize_confirmation flash (some m) d ≡ commit_working flash (finished m) d
  finalize_confirmation-working m d done = unfold finalize_confirmation in ground arith

  candidate-counted :
      (m : BootMetadata) (d : Device)
      → ((candidate flash (counted m) d).state ≡ m.state)
        × ((candidate flash (counted m) d).boot_attempts ≡ (m.boot_attempts + 1) % 2 ^ 32)
  unfolding candidate finalize counted
  candidate-counted m d = (refl, refl)

  candidate-finished :
      (m : BootMetadata) (d : Device)
      → ((candidate flash (finished m) d).state ≡ code idle)
        × ((candidate flash (finished m) d).active_version ≡ m.pending_version)
  unfolding candidate finalize finished
  candidate-finished m d = (refl, refl)

  -- Once a trial boot of a record was prepared, the next load finds a valid record that is still in
  -- the trial state, with one attempt more and at most three.
  pub prepare_attempt-load :
      (v : ℕ) (m : BootMetadata) (d : Device)
      → IsRecord m
      → (prepare_attempt flash (some m) d).status ≡ trial_ok
      → let next = (load flash v (prepare_attempt flash (some m) d).device).metadata in
        (validate (some next) ≡ valid)
        × (next.state ≡ code trial_boot)
        × (next.boot_attempts ≡ m.boot_attempts + 1)
        × (next.boot_attempts ≤ max_boot_attempts)
  prepare_attempt-load v m d words_ok done =
      let (trial, few, same) = prepare_attempt-working m d done in
      let (loaded, good) =
        commit_working-load v (counted m) d (counted-IsRecord m words_ok)
          (ap (λ r. r.status) (sym same) ∙ done) in
      let (state, attempts) = candidate-counted m d in
      rw (same, loaded) (good, state ∙ trial, omega arith, omega arith)

  -- Once a confirmed update was closed, the next boot finds the pending version active and jumps to
  -- the application where its vectors are valid.
  pub finalize_confirmation-jump :
      (v : ℕ) (m : BootMetadata) (d : Device) (application_valid : ℕ)
      → IsRecord m
      → (finalize_confirmation flash (some m) d).status ≡ trial_ok
      → application_valid ≢ 0
      → let next = (load flash v (finalize_confirmation flash (some m) d).device).metadata in
        (next.active_version ≡ m.pending_version)
        × ((evaluate (some next) application_valid).action ≡ jump_active)
  finalize_confirmation-jump v m d application_valid words_ok done vectors =
      let same = finalize_confirmation-working m d done in
      let (loaded, good) =
        commit_working-load v (finished m) d (finished-IsRecord m words_ok)
          (ap (λ r. r.status) (sym same) ∙ done) in
      let (state, version) = candidate-finished m d in
      rw (same, loaded)
        (
          version,
          (evaluate-jump_iff (candidate flash (finished m) d) application_valid).1
              (good, state, vectors),
        )
