-- ===== src/MetadataStorage/Newest.antt =====
-- node-stm32f103/bootloader/storage/metadata_storage.c: the newest slot before and after a commit.
use secure_delta_ota_bootloa.Base.{
  ℕ, ◌≡◌, ◌≢◌, inl, inr, refl, ap, ◌∙◌, Bool, true, some, arith, Bool-cases,
}
use secure_delta_ota_bootloa.Base.Bytes.{IsU32}
use secure_delta_ota_bootloa.Slots.{Slot, slot_none, slot_a, slot_b, select_write, next_generation}
use secure_delta_ota_bootloa.Slots.Order.{
  newest_after_a, newest_after_b, newest_after_first, next_range,
}
use secure_delta_ota_bootloa.BootMetadata.{
  BootMetadata, finalize, validate, is_valid_status, select_newest_slot, select_write_slot,
}
use secure_delta_ota_bootloa.BootMetadata.Image.{IsRecord, finalize-IsRecord}
use secure_delta_ota_bootloa.Flash.{Flash, FlashLaws}
use secure_delta_ota_bootloa.MetadataStorage.{
  ok, StorageStatus, is_ok, copy_from_flash, slot_address, program_slot, load, commit, candidate,
  target_slot, verify_written, generation_of,
}
use secure_delta_ota_bootloa.MetadataStorage.Frame.{
  copy_from_flash-frame, copy_from_flash-IsRecord, SameOutside,
}

abbrev pub accepts : BootMetadata → Bool
accepts m = is_valid_status (validate (some m))

is_ok_eq : (s : StorageStatus) → is_ok s ≡ true → s ≡ ok
is_ok_eq s h = ground arith

-- The newest of two slots once one of them holds a valid record of the next generation.
module _ (a b w : BootMetadata) where
  newest_is_b :
      select_newest_slot (some a) (some b) ≡ slot_a
      → is_valid_status (validate (some w)) ≡ true
      → IsU32 a.generation
      → w.generation ≡ next_generation a.generation
      → select_newest_slot (some a) (some w) ≡ slot_b
  unfolding select_newest_slot
  newest_is_b current good h next =
      rw (good, next) (newest_after_b (accepts a) (accepts b) a.generation b.generation h current)

  newest_is_a :
      select_newest_slot (some a) (some b) ≡ slot_b
      → is_valid_status (validate (some w)) ≡ true
      → IsU32 b.generation
      → w.generation ≡ next_generation b.generation
      → select_newest_slot (some w) (some b) ≡ slot_a
  unfolding select_newest_slot
  newest_is_a current good h next =
      rw (good, next) (newest_after_a (accepts a) (accepts b) a.generation b.generation h current)

  newest_is_first :
      select_newest_slot (some a) (some b) ≡ slot_none
      → is_valid_status (validate (some w)) ≡ true
      → select_newest_slot (some w) (some b) ≡ slot_a
  unfolding select_newest_slot
  newest_is_first current good =
      rw good
        (newest_after_first (accepts a) (accepts b) a.generation b.generation w.generation current)

module _ (flash : Flash) (laws : FlashLaws flash) where
  open flash use {Device, read}

  abbrev pub record_in : Device → Slot → BootMetadata
  record_in d slot = copy_from_flash flash d (slot_address slot)

  abbrev pub newest : Device → Slot
  newest d = select_newest_slot (some (record_in d slot_a)) (some (record_in d slot_b))

  -- What a commit that reports success has done.
  pub record Committed (requested : BootMetadata) (d : Device) : Type 0 where
    pub accepted : is_valid_status (validate (some (candidate flash requested d))) ≡ true
    pub programmed :
        (program_slot flash (target_slot flash d) (candidate flash requested d) d).0 ≡ ok
    pub result :
        commit flash (some requested) d
        ≡ verify_written flash
            (target_slot flash d)
            (candidate flash requested d)
            (program_slot flash (target_slot flash d) (candidate flash requested d) d).1

  pub commit-ok :
      (requested : BootMetadata) (d : Device)
      → (commit flash (some requested) d).status ≡ ok
      → Committed requested d
  unfolding commit
  commit-ok requested d success =
      elim (Bool-cases (is_valid_status (validate (some (candidate flash requested d))))) [
        | inr bad ↦ absurd (ground arith)
        | inl good ↦
            elim (Bool-cases (
              is_ok (program_slot flash (target_slot flash d) (candidate flash requested d) d).0)) [
                | inr stopped ↦ absurd (ground arith)
                | inl done ↦ record {
                  accepted = good;
                  programmed = is_ok_eq _ done;
                  result = rw (good, done);
                }
              ]
      ]

  -- A successful read-back found the record that was written, and it validates.
  pub verify_written-ok :
      (slot : Slot) (m : BootMetadata) (d : Device)
      → (verify_written flash slot m d).status ≡ ok
      → (is_valid_status (validate (some (record_in d slot))) ≡ true)
        × (verify_written flash slot m d ≡ record {
          status = ok;
          committed = some (record_in d slot);
          written_slot = slot;
          device = d;
        })
  unfolding verify_written
  verify_written-ok slot m d success = ground arith

  pub candidate-IsRecord :
      (requested : BootMetadata) (d : Device)
      → IsRecord requested
      → IsRecord (candidate flash requested d)
  unfolding candidate
  candidate-IsRecord requested d (h0, (h1, rest)) =
      finalize-IsRecord _ (h0, ((next_range _).0, rest))

  candidate-generation :
      (requested : BootMetadata) (d : Device)
      → (candidate flash requested d).generation
        ≡ next_generation (generation_of (newest d) (record_in d slot_a) (record_in d slot_b))
  unfolding candidate finalize slot_address
  candidate-generation requested d = refl

  next_of :
      (s t : Slot) (requested : BootMetadata) (d e : Device)
      → newest d ≡ s
      → record_in e t ≡ candidate flash requested d
      → (record_in e t).generation
        ≡ next_generation (generation_of s (record_in d slot_a) (record_in d slot_b))
  next_of s t requested d e current holds =
      ap (λ r. r.generation) holds
      ∙ candidate-generation requested d
      ∙ ap (λ t. next_generation (generation_of t (record_in d slot_a) (record_in d slot_b)))
          current

  generation-IsU32 : (d : Device) (slot : Slot) → IsU32 (record_in d slot).generation
  generation-IsU32 d slot = (copy_from_flash-IsRecord flash laws d (slot_address slot)).1.0

  -- The slot that was written, if it holds the candidate and the other is as before, is newest.
  newest_written_at :
      (s : Slot) (requested : BootMetadata) (d e : Device)
      → newest d ≡ s
      → SameOutside flash laws (slot_address (select_write s)) d e
      → record_in e (select_write s) ≡ candidate flash requested d
      → is_valid_status (validate (some (record_in e (select_write s)))) ≡ true
      → newest e ≡ select_write s
  unfolding select_write generation_of
  newest_written_at slot_a requested d e current same holds good =
      rw (copy_from_flash-frame flash laws slot_b d e same) (
        newest_is_b (record_in d slot_a) (record_in d slot_b) (record_in e slot_b) current good
          (generation-IsU32 d slot_a) (next_of slot_a slot_b requested d e current holds))
  newest_written_at slot_b requested d e current same holds good =
      rw (copy_from_flash-frame flash laws slot_a d e same) (
        newest_is_a (record_in d slot_a) (record_in d slot_b) (record_in e slot_a) current good
          (generation-IsU32 d slot_b) (next_of slot_b slot_a requested d e current holds))
  newest_written_at slot_none requested d e current same holds good =
      rw (copy_from_flash-frame flash laws slot_a d e same) (
        newest_is_first (record_in d slot_a) (record_in d slot_b) (record_in e slot_a) current good)

  pub newest_written :
      (requested : BootMetadata) (d e : Device)
      → SameOutside flash laws (slot_address (target_slot flash d)) d e
      → record_in e (target_slot flash d) ≡ candidate flash requested d
      → is_valid_status (validate (some (record_in e (target_slot flash d)))) ≡ true
      → newest e ≡ target_slot flash d
  unfolding target_slot select_write_slot slot_address
  newest_written requested d e = newest_written_at (newest d) requested d e refl

  pub load-newest :
      (application_version : ℕ) (d : Device) (s : Slot)
      → s ≢ slot_none
      → newest d ≡ s
      → load flash application_version d
        ≡ record { status = ok; metadata = record_in d s; active_slot = s }
  unfolding load slot_address
  load-newest v d slot_none ne e = absurd (ne refl)
  load-newest v d slot_a ne e = rw (e, load)
  load-newest v d slot_b ne e = rw (e, load)

  pub target_slot-ne : (d : Device) → target_slot flash d ≢ slot_none
  unfolding target_slot select_write_slot select_write
  target_slot-ne d e = ground arith
