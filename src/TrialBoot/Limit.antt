-- ===== src/TrialBoot/Limit.antt =====
-- node-stm32f103/bootloader/src/trial_boot.c and boot_decision.c: trial boots in a row, with nothing
-- that confirms the image in between.
use secure_delta_ota_bootloa.Base.{ℕ, zero, suc, ◌+◌, ◌≤◌, ◌≡◌, some, arith}
use secure_delta_ota_bootloa.Base.Bytes.{IsU32}
use secure_delta_ota_bootloa.Memory.{boot_metadata_a_address, boot_metadata_b_address}
use secure_delta_ota_bootloa.Slots.{Slot, slot_a, slot_b, slot_none}
use secure_delta_ota_bootloa.BootMetadata.{
  BootMetadata, code, trial_boot, validate, valid, init, max_boot_attempts, select_newest_slot,
}
use secure_delta_ota_bootloa.BootMetadata.Image.{IsRecord}
use secure_delta_ota_bootloa.BootDecision.{boot_trial, resume_rollback, evaluate}
use secure_delta_ota_bootloa.BootDecision.Safety.{evaluate-limit}
use secure_delta_ota_bootloa.Flash.{Flash, FlashLaws}
use secure_delta_ota_bootloa.MetadataStorage.{load, chosen, copy_from_flash}
use secure_delta_ota_bootloa.MetadataStorage.Frame.{copy_from_flash-IsRecord}
use secure_delta_ota_bootloa.TrialBoot.{TrialResult, trial_ok, prepare_attempt}
use secure_delta_ota_bootloa.TrialBoot.Attempts.{prepare_attempt-load}

module _ (flash : Flash) (laws : FlashLaws flash) (v : ℕ) where
  open flash use {Device}

  -- The record that a boot on this device works with.
  abbrev pub stored : Device → BootMetadata
  stored d = (load flash v d).metadata

  abbrev pub after_attempt : Device → TrialResult Device
  after_attempt d = prepare_attempt flash (some (stored d)) d

  -- `Trials n d e`: from the device `d`, `n` boots in a row start and count a trial, and leave `e`.
  pub data Trials (d : Device) : ℕ → Device → Type 0 where
    start : Trials d 0 d
    again :
        {n : ℕ} {e : Device} (application_valid : ℕ)
        → Trials d n e
        → (evaluate (some (stored e)) application_valid).action ≡ boot_trial
        → (after_attempt e).status ≡ trial_ok
        → Trials d (suc n) (after_attempt e).device

  init-IsRecord : IsU32 v → IsRecord (init v)
  unfolding init
  init-IsRecord h = omega (arith, h)

  -- What `load` chooses among.
  choose-IsRecord :
      (s : Slot) (a b defaults : BootMetadata)
      → IsRecord a
      → IsRecord b
      → IsRecord defaults
      → IsRecord (chosen s a b defaults).metadata
  choose-IsRecord slot_a a b defaults ha hb hd = ha
  choose-IsRecord slot_b a b defaults ha hb hd = hb
  choose-IsRecord slot_none a b defaults ha hb hd = hd

  pub stored-IsRecord : (d : Device) → IsU32 v → IsRecord (stored d)
  unfolding load
  stored-IsRecord d h =
      choose-IsRecord
        (select_newest_slot (some (copy_from_flash flash d boot_metadata_a_address))
          (some (copy_from_flash flash d boot_metadata_b_address)))
        _ _ _ (copy_from_flash-IsRecord flash laws d boot_metadata_a_address)
        (copy_from_flash-IsRecord flash laws d boot_metadata_b_address) (init-IsRecord h)

  -- After one or more trial boots in a row, the stored record is a valid one in the trial state, and
  -- its attempts are those from before and one for each boot, three at most.
  pub Trials-counted :
      (d : Device) (n : ℕ) (e : Device)
      → IsU32 v
      → Trials d (suc n) e
      → (validate (some (stored e)) ≡ valid)
        × ((stored e).state ≡ code trial_boot)
        × ((stored e).boot_attempts ≡ (stored d).boot_attempts + suc n)
        × ((stored e).boot_attempts ≤ max_boot_attempts)
  Trials-counted d zero e h (again {e = f} application_valid start decided done) =
      let (good, state, one_more, few) =
        prepare_attempt-load flash laws v (stored f) f (stored-IsRecord f h) done in
      (good, state, omega arith, few)
  Trials-counted d (suc n) e h (again {e = f} application_valid before decided done) =
      let (good, state, one_more, few) =
        prepare_attempt-load flash laws v (stored f) f (stored-IsRecord f h) done in
      let (_, _, counted, _) = Trials-counted d n f h before in (good, state, omega arith, few)

  -- After a third trial boot in a row the next boot rolls back, whether the application's vectors
  -- are valid or not.
  pub Trials-exhausted :
      (d e : Device) (application_valid : ℕ)
      → IsU32 v
      → Trials d 3 e
      → (evaluate (some (stored e)) application_valid).action ≡ resume_rollback
  Trials-exhausted d e application_valid h trials =
      let (good, state, counted, few) = Trials-counted d 2 e h trials in
      evaluate-limit (stored e) application_valid good state (omega arith)
