-- ===== src/MetadataStorage/Commit.antt =====
-- node-stm32f103/bootloader/storage/metadata_storage.c: a commit, then a load.
use secure_delta_ota_bootloa.Base.{ℕ, ◌≡◌, inl, inr, refl, ap, sym, ◌∙◌, some, arith, Bool-cases}
use secure_delta_ota_bootloa.Memory.{boot_metadata_a_address, boot_metadata_b_address}
use secure_delta_ota_bootloa.Slots.{Slot, slot_none, slot_a, slot_b}
use secure_delta_ota_bootloa.BootMetadata.{BootMetadata, validate, is_valid_status}
use secure_delta_ota_bootloa.BootMetadata.Image.{IsRecord}
use secure_delta_ota_bootloa.Flash.{Flash, FlashLaws, Outside}
use secure_delta_ota_bootloa.MetadataStorage.{
  ok, is_ok, program_slot, load, commit, candidate, target_slot, verify_written, slot_address,
}
use secure_delta_ota_bootloa.MetadataStorage.Frame.{program_slot-frame, program_slot-value}
use secure_delta_ota_bootloa.MetadataStorage.Newest.{
  commit-ok, verify_written-ok, candidate-IsRecord, newest_written, load-newest, target_slot-ne,
}

module _ (flash : Flash) (laws : FlashLaws flash) where
  open flash use {Device}

  -- When a commit reports success, the record it hands back is the requested one under the next
  -- generation, and a load from the device that it leaves returns that record from that slot.
  pub commit-load :
      (application_version : ℕ) (requested : BootMetadata) (d : Device)
      → IsRecord requested
      → (commit flash (some requested) d).status ≡ ok
      → let done = commit flash (some requested) d in
        let written = candidate flash requested d in
        (done.committed ≡ some written)
        × (load flash application_version done.device
            ≡ record { status = ok; metadata = written; active_slot = done.written_slot })
  commit-load v requested d words_ok success =
      let c = commit-ok flash laws requested d success in
      let e = (program_slot flash (target_slot flash d) (candidate flash requested d) d).1 in
      let (good, read_back) =
        verify_written-ok flash laws (target_slot flash d) (candidate flash requested d) e
          (ap (λ r. r.status) (sym c.result) ∙ success) in
      let holds =
        program_slot-value flash laws (target_slot flash d) (candidate flash requested d) d
          (candidate-IsRecord flash laws requested d words_ok) c.programmed in
      rw (c.result ∙ read_back) (
        ap some holds,
        load-newest flash laws v e (target_slot flash d) (target_slot-ne flash laws d) (
              newest_written flash laws requested d e
                (program_slot-frame flash laws (target_slot flash d) (candidate flash requested d)
                  d)
                holds good)
            ∙ rw holds,
      )

  verify_written-device :
      (slot : Slot) (m : BootMetadata) (d : Device) → (verify_written flash slot m d).device ≡ d
  unfolding verify_written
  verify_written-device slot m d = ground arith

  program_slot-kept :
      (slot : Slot) (m : BootMetadata) (d : Device) (a : ℕ)
      → Outside boot_metadata_a_address a
      → Outside boot_metadata_b_address a
      → flash.read (program_slot flash slot m d).1 a ≡ flash.read d a
  unfolding program_slot slot_address
  program_slot-kept slot_a m d a out_a out_b = program_slot-frame flash laws slot_a m d a out_a
  program_slot-kept slot_b m d a out_a out_b = program_slot-frame flash laws slot_b m d a out_b
  program_slot-kept slot_none m d a out_a out_b = refl

  -- A commit changes nothing outside the two metadata pages, whatever it returns.
  pub commit-frame :
      (requested : BootMetadata) (d : Device) (a : ℕ)
      → Outside boot_metadata_a_address a
      → Outside boot_metadata_b_address a
      → flash.read (commit flash (some requested) d).device a ≡ flash.read d a
  commit-frame requested d a out_a out_b =
      let slot = target_slot flash d in
      let c = candidate flash requested d in
      let programmed = program_slot flash slot c d in
      let first : flash.read programmed.1 a ≡ flash.read d a =
        program_slot-kept slot c d a out_a out_b in
      elim (Bool-cases (is_valid_status (validate (some c)))) [
        | inr v ↦ unfold commit in rw v refl
        | inl v ↦ elim (Bool-cases (is_ok programmed.0)) [
          | inr b ↦ unfold commit in rw (v, b) first
          | inl b ↦
              unfold commit in
              rw (v, b)
                (ap (λ e. flash.read e a) (verify_written-device slot c programmed.1) ∙ first)
        ]
      ]
