-- ===== src/MetadataStorage/Healthy.antt =====
-- node-stm32f103/bootloader/storage/metadata_storage.c on a flash whose calls complete.
use secure_delta_ota_bootloa.Base.{ℕ, ◌≡◌, refl, ap, ◌≢◌, ◌+◌, true, some, List, [], ◌∷◌, arith}
use secure_delta_ota_bootloa.Base.Bytes.{le16}
use secure_delta_ota_bootloa.Base.Range.{bytes_equal, bytes_equal_refl}
use secure_delta_ota_bootloa.Memory.{boot_metadata_a_address, boot_metadata_b_address}
use secure_delta_ota_bootloa.Slots.{Slot, slot_none, slot_a, slot_b}
use secure_delta_ota_bootloa.BootMetadata.{BootMetadata, encode}
use secure_delta_ota_bootloa.BootMetadata.Image.{IsRecord}
use secure_delta_ota_bootloa.Flash.{Flash, FlashLaws, complete}
use secure_delta_ota_bootloa.MetadataStorage.{
  ok, slot_address, records_equal, program_bytes, program_slot, commit, candidate, target_slot,
  verify_written,
}
use secure_delta_ota_bootloa.MetadataStorage.Frame.{program_slot-value}
use secure_delta_ota_bootloa.MetadataStorage.Newest.{
  record_in, accepts, candidate-IsRecord, target_slot-ne,
}

records_equal_refl : (m : BootMetadata) → records_equal m m ≡ true
unfolding records_equal
records_equal_refl m = unfold bytes_equal in bytes_equal_refl (encode m)

-- No call fails.
pub record IsHealthy (flash : Flash) : Type 0 where
  pub erase_completes : (page : ℕ) (d : flash.Device) → (flash.erase_page page d).0 ≡ complete
  pub program_completes :
      (p v : ℕ) (d : flash.Device) → (flash.program_half_word p v d).0 ≡ complete

module _ (flash : Flash) (laws : FlashLaws flash) (healthy : IsHealthy flash) where
  open flash use {Device, read, erase_page, program_half_word}
  open healthy use {erase_completes, program_completes}

  pub program_bytes_ok :
      (address : ℕ) (bs : List ℕ) (d : Device) → (program_bytes flash address bs d).0 ≡ ok
  unfolding program_bytes
  program_bytes_ok address [] d = refl
  program_bytes_ok address (x ∷ []) d = refl
  program_bytes_ok address (x ∷ y ∷ rest) d =
      rw (program_completes address (le16 x y) d)
        (program_bytes_ok (address + 2) rest (program_half_word address (le16 x y) d).1)

  program_slot_ok :
      (slot : Slot) (m : BootMetadata) (d : Device)
      → slot ≢ slot_none
      → (program_slot flash slot m d).0 ≡ ok
  unfolding program_slot slot_address
  program_slot_ok slot_none m d ne = absurd (ne refl)
  program_slot_ok slot_a m d ne =
      rw (erase_completes boot_metadata_a_address d) (program_bytes_ok _ (encode m) _)
  program_slot_ok slot_b m d ne =
      rw (erase_completes boot_metadata_b_address d) (program_bytes_ok _ (encode m) _)

  verify_written_ok :
      (slot : Slot) (m : BootMetadata) (d : Device)
      → record_in flash laws d slot ≡ m
      → accepts m ≡ true
      → (verify_written flash slot m d).status ≡ ok
  unfolding verify_written
  verify_written_ok slot m d holds good =
      ground
        (arith, holds, good, records_equal_refl m, ap accepts holds, ap (records_equal m) holds)

  -- When no flash call fails, a commit whose record validates succeeds.
  pub commit_succeeds :
      (requested : BootMetadata) (d : Device)
      → IsRecord requested
      → accepts (candidate flash requested d) ≡ true
      → (commit flash (some requested) d).status ≡ ok
  commit_succeeds requested d words_ok good =
      let m = candidate flash requested d in
      let t = target_slot flash d in
      let programmed = program_slot_ok t m d (target_slot-ne flash laws d) in
      let holds =
        program_slot-value flash laws t m d (candidate-IsRecord flash laws requested d words_ok)
          programmed in
      let verified = verify_written_ok t m (program_slot flash t m d).1 holds good in
      unfold commit in rw (good, programmed) verified
