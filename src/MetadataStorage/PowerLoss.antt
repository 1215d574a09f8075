-- ===== src/MetadataStorage/PowerLoss.antt =====
-- node-stm32f103/bootloader/storage/metadata_storage.c: the states that a cut of power during a commit
-- can leave, and the next load.
use secure_delta_ota_bootloa.Base.{
  ℕ, ◌*◌, ◌≡◌, ◌≢◌, refl, ap, sym, ◌∙◌, true, false, arith, take, length-take,
}
use secure_delta_ota_bootloa.Slots.{Slot, slot_none, slot_a, slot_b, select_newest, select_write}
use secure_delta_ota_bootloa.BootMetadata.{
  BootMetadata, encode, select_newest_slot, select_write_slot,
}
use secure_delta_ota_bootloa.BootMetadata.Image.{length-encode}
use secure_delta_ota_bootloa.Flash.{Flash, FlashLaws}
use secure_delta_ota_bootloa.MetadataStorage.{
  ok, slot_address, program_bytes, program_slot, load, candidate, target_slot,
}
use secure_delta_ota_bootloa.MetadataStorage.Frame.{
  SameOutside, program_slot-frame, program_bytes-frame, copy_from_flash-frame,
}
use secure_delta_ota_bootloa.MetadataStorage.Newest.{
  record_in, newest, accepts, newest_written, load-newest, target_slot-ne,
}

module _ (flash : Flash) (laws : FlashLaws flash) where
  open flash use {Device, erase_page}

  -- A device that a cut of power leaves while `m` is being written into `slot`: before the erase;
  -- in it, with any contents of that page; after any number of half-words, with the one under way
  -- torn in any manner; or after the last.
  pub data Interrupted (slot : Slot) (m : BootMetadata) (d : Device) : Device → Type 0 where
    not_started : Interrupted slot m d d
    erasing : {e : Device} → SameOutside flash laws (slot_address slot) d e → Interrupted slot m d e
    programming :
        (rounds : ℕ) {e : Device}
        → SameOutside flash laws
            (slot_address slot)
            (program_bytes flash
              (slot_address slot)
              (take (2 * rounds) (encode m))
              (erase_page (slot_address slot) d).1).1
            e
        → Interrupted slot m d e
    finished : Interrupted slot m d (program_slot flash slot m d).1

  Interrupted-SameOutside :
      (slot : Slot) (m : BootMetadata) (d e : Device)
      → Interrupted slot m d e
      → SameOutside flash laws (slot_address slot) d e
  Interrupted-SameOutside slot m d e not_started a out = refl
  Interrupted-SameOutside slot m d e (erasing same) a out = same a out
  Interrupted-SameOutside slot m d e (programming rounds same) a out =
      same a out
      ∙ program_bytes-frame flash laws (slot_address slot) a (take (2 * rounds) (encode m))
          (erase_page (slot_address slot) d).1
          (ground (arith, length-encode m, length-take (2 * rounds) (encode m)))
      ∙ laws.erase_frame (slot_address slot) a d out
  Interrupted-SameOutside slot m d e finished a out = program_slot-frame flash laws slot m d a out

  -- The superseded slot stays the newest as long as the other does not validate.
  newest_kept :
      (s : Slot) (d e : Device)
      → s ≢ slot_none
      → newest flash laws d ≡ s
      → record_in flash laws e s ≡ record_in flash laws d s
      → accepts (record_in flash laws e (select_write s)) ≡ false
      → newest flash laws e ≡ s
  unfolding select_newest_slot select_write select_newest
  newest_kept slot_none d e ne current same torn = absurd (ne refl)
  newest_kept slot_a d e ne current same torn = rw (same, torn) (ground arith)
  newest_kept slot_b d e ne current same torn = rw (same, torn) (ground arith)

  kept_record :
      (s : Slot) (d e : Device)
      → s ≢ slot_none
      → SameOutside flash laws (slot_address (select_write s)) d e
      → record_in flash laws e s ≡ record_in flash laws d s
  unfolding select_write
  kept_record slot_none d e ne same = absurd (ne refl)
  kept_record slot_a d e ne same = copy_from_flash-frame flash laws slot_b d e same
  kept_record slot_b d e ne same = copy_from_flash-frame flash laws slot_a d e same

  load_kept :
      (application_version : ℕ) (s : Slot) (d e : Device)
      → s ≢ slot_none
      → newest flash laws d ≡ s
      → SameOutside flash laws (slot_address (select_write s)) d e
      → accepts (record_in flash laws e (select_write s)) ≡ false
      → load flash application_version e ≡ load flash application_version d
  load_kept v s d e ne current same torn =
      let kept = kept_record s d e ne same in
      load-newest flash laws v e s ne (newest_kept s d e ne current kept torn)
      ∙ rw kept (sym (load-newest flash laws v d s ne current))

  cut_frame :
      (requested : BootMetadata) (d e : Device)
      → Interrupted (target_slot flash d) (candidate flash requested d) d e
      → SameOutside flash laws (slot_address (target_slot flash d)) d e
  cut_frame requested d e =
      Interrupted-SameOutside (target_slot flash d) (candidate flash requested d) d e

  -- Wherever power fails in a commit on a device that holds a valid record, the next load returns
  -- what a load before the commit returned, if the page being written does not validate.
  pub interrupted-load :
      (application_version : ℕ) (requested : BootMetadata) (d e : Device)
      → newest flash laws d ≢ slot_none
      → Interrupted (target_slot flash d) (candidate flash requested d) d e
      → accepts (record_in flash laws e (target_slot flash d)) ≡ false
      → load flash application_version e ≡ load flash application_version d
  interrupted-load v requested d e ne cut =
      unfold target_slot select_write_slot slot_address in
      load_kept v (newest flash laws d) d e ne refl (cut_frame requested d e cut)

  -- Wherever power fails in a commit, the next load returns the new record from the slot being
  -- written, if that slot reads back as the new record and the new record validates.
  pub interrupted-load_new :
      (application_version : ℕ) (requested : BootMetadata) (d e : Device)
      → Interrupted (target_slot flash d) (candidate flash requested d) d e
      → record_in flash laws e (target_slot flash d) ≡ candidate flash requested d
      → accepts (candidate flash requested d) ≡ true
      → load flash application_version e ≡ record {
        status = ok;
        metadata = candidate flash requested d;
        active_slot = target_slot flash d;
      }
  interrupted-load_new v requested d e cut holds good =
      load-newest flash laws v e (target_slot flash d) (target_slot-ne flash laws d) (
        newest_written flash laws requested d e (cut_frame requested d e cut) holds
          (ap accepts holds ∙ good))
      ∙ rw holds
