-- ===== src/RollbackProcess/Complete.antt =====
-- node-stm32f103/bootloader/src/image_installer.c: a rollback of which no flash call fails.
use secure_delta_ota_bootloa.Base.{ℕ, ◌*◌, ◌≤◌, ◌≡◌, refl, ap, sym, ◌∙◌, true, arith, !=_refl}
use secure_delta_ota_bootloa.Base.Bytes.{IsU32}
use secure_delta_ota_bootloa.Base.Range.{read_range, read_range-shift, read_range-pointwise}
use secure_delta_ota_bootloa.Memory.{application_start_address, application_max_size}
use secure_delta_ota_bootloa.Crc32.{calculate}
use secure_delta_ota_bootloa.BootMetadata.{BootMetadata, finalize, state_fields_are_consistent}
use secure_delta_ota_bootloa.BootMetadata.Checks.{validate_iff, HasSoundFields, IsSealed}
use secure_delta_ota_bootloa.BootMetadata.Image.{IsRecord, calculate_crc-finalize}
use secure_delta_ota_bootloa.Slots.Order.{next_range}
use secure_delta_ota_bootloa.BackupImage.{BackupImage}
use secure_delta_ota_bootloa.Flash.{Flash, FlashLaws}
use secure_delta_ota_bootloa.NorFlash.{NorFlash, NorLaws, IsReadable}
use secure_delta_ota_bootloa.MetadataStorage.{candidate}
use secure_delta_ota_bootloa.MetadataStorage.Newest.{accepts}
use secure_delta_ota_bootloa.MetadataStorage.Healthy.{IsHealthy, commit_succeeds}
use secure_delta_ota_bootloa.ApplicationJump.{stack_pointer_at, reset_handler_at}
use secure_delta_ota_bootloa.ApplicationJump.Agreement.{validate-validate_vector}
use secure_delta_ota_bootloa.FullImage.{validate_vector, vector_valid}
use secure_delta_ota_bootloa.RollbackProcess.{
  rolled_back, verify_rolled_back, finalize_rollback, copy_and_finish, commit_metadata,
}
use secure_delta_ota_bootloa.BackupStorage.Frame.{image_start}
use secure_delta_ota_bootloa.InstallerCrc.{calculate_internal_crc}
use secure_delta_ota_bootloa.InstallerCrc.Chunks.{calculate_internal_crc_lem}
use secure_delta_ota_bootloa.Rollback.{ok, Board, application_pages, resume_rollback_copy}
use secure_delta_ota_bootloa.Rollback.Healthy.{IsRollingBack}
use secure_delta_ota_bootloa.Rollback.Complete.{rollback_completes, rollback_completes-IsRecord}
use secure_delta_ota_bootloa.Rollback.Restore.{application_bytes, backup_bytes, rollback_restores}

module _ (flash : Flash) (laws : FlashLaws flash) (healthy : IsHealthy flash) where
  consistent_idle :
      (diagnostic : ℕ) (header : BackupImage) (m : BootMetadata) (d : flash.Device)
      → state_fields_are_consistent (candidate flash (rolled_back diagnostic header m) d) ≡ true
  unfolding state_fields_are_consistent candidate finalize rolled_back
  consistent_idle diagnostic header m d = refl

  idle_accepted :
      (diagnostic : ℕ) (header : BackupImage) (m : BootMetadata) (d : flash.Device)
      → accepts (candidate flash (rolled_back diagnostic header m) d) ≡ true
  idle_accepted diagnostic header m d =
      let c = candidate flash (rolled_back diagnostic header m) d in
      let sealed : IsSealed c = record {
        magic_set = unfold candidate in unfold finalize in refl;
        version_set = unfold candidate in unfold finalize in refl;
        crc_matches = unfold candidate in calculate_crc-finalize _;
      } in
      let sound : HasSoundFields c = record {
        generation_set = unfold candidate in unfold finalize in (next_range _).1;
        state_known = unfold candidate in unfold finalize in unfold rolled_back in omega arith;
        received_bounded = unfold candidate in unfold finalize in unfold rolled_back in omega arith;
        expected_bounded = unfold candidate in unfold finalize in unfold rolled_back in omega arith;
        offset_bounded = unfold candidate in unfold finalize in unfold rolled_back in omega arith;
        consistent = consistent_idle diagnostic header m d;
      } in
      let e = (validate_iff c).1 (sealed, sound) in rw e refl

  rolled_back-IsRecord :
      (diagnostic : ℕ) (header : BackupImage) (m : BootMetadata)
      → IsU32 diagnostic
      → IsU32 header.active_version
      → IsRecord m
      → IsRecord (rolled_back diagnostic header m)
  unfolding rolled_back
  rolled_back-IsRecord diagnostic header m word version h = omega (arith, word, version, h)

module _ (flash : Flash) (laws : FlashLaws flash) (healthy : IsHealthy flash) (nor : NorFlash)
    (nor_laws : NorLaws nor) (readable : IsReadable nor) where
  -- The vector table that the image of a backup begins with is valid.
  abbrev pub HasValidVector : Board flash nor → Type 0
  HasValidVector b =
      validate_vector application_max_size (stack_pointer_at (nor.memory b.external) image_start)
        (reset_handler_at (nor.memory b.external) image_start)
      ≡ vector_valid

  verify_rolled_back_ok :
      (header : BackupImage) (b c : Board flash nor)
      → application_bytes flash laws nor nor_laws application_max_size c
        ≡ backup_bytes flash laws nor nor_laws application_max_size b
      → header.image_crc32 ≡ calculate (backup_bytes flash laws nor nor_laws application_max_size b)
      → HasValidVector b
      → verify_rolled_back flash nor header c ≡ ok
  verify_rolled_back_ok header b c restored crc vector =
      let memory = flash.read c.internal in
      let words : read_range memory application_start_address 8
          ≡ read_range (nor.memory b.external) image_start 8 =
        read_range-shift memory (nor.memory b.external) application_start_address image_start 8
          (λ i h.
            read_range-pointwise memory (nor.memory b.external) application_start_address
              image_start application_max_size i restored (omega (arith, h))) in
      let here : validate_vector application_max_size
            (stack_pointer_at memory application_start_address)
            (reset_handler_at memory application_start_address)
          ≡ vector_valid =
        rw words vector in
      let jump = (validate-validate_vector memory application_max_size).0 here in
      let same : calculate_internal_crc flash application_max_size c.internal ≡ header.image_crc32 =
        calculate_internal_crc_lem flash application_max_size c.internal
        ∙ ap calculate restored
        ∙ sym crc in
      unfold verify_rolled_back in rw (same, !=_refl header.image_crc32, here, jump) refl

  -- The part of a rollback from the copy on, when no call of the internal flash fails and the external
  -- flash can be read: it succeeds from every checkpoint up to which the region was restored.
  pub copy_and_finish_succeeds :
      (k diagnostic : ℕ) (header : BackupImage) (m : BootMetadata) (b : Board flash nor)
      → IsRecord m
      → IsRollingBack m
      → m.copy_offset ≡ 1024 * k
      → k ≤ application_pages
      → application_bytes flash laws nor nor_laws m.copy_offset b
        ≡ backup_bytes flash laws nor nor_laws m.copy_offset b
      → IsU32 diagnostic
      → IsU32 header.active_version
      → header.image_crc32 ≡ calculate (backup_bytes flash laws nor nor_laws application_max_size b)
      → HasValidVector b
      → (copy_and_finish flash nor diagnostic header m b).status ≡ ok
  copy_and_finish_succeeds k diagnostic header m b words_ok rolling at_k inside before word version
        crc vector =
      let copied = resume_rollback_copy flash nor m b in
      let done =
        rollback_completes flash laws healthy nor nor_laws readable k m b words_ok rolling at_k
          inside in
      let copied_ok =
        rollback_completes-IsRecord flash laws healthy nor nor_laws readable k m b words_ok rolling
          at_k inside in
      let restored = (rollback_restores flash laws nor nor_laws m b words_ok before done).1 in
      let verified = verify_rolled_back_ok header b copied.board restored crc vector in
      let success =
        commit_succeeds flash laws healthy (rolled_back diagnostic header copied.metadata)
          copied.board.internal
          (rolled_back-IsRecord flash laws healthy diagnostic header copied.metadata word version
            copied_ok)
          (idle_accepted flash laws healthy diagnostic header copied.metadata
            copied.board.internal) in
      unfold copy_and_finish in
      unfold finalize_rollback in unfold commit_metadata in rw (done, verified, success) refl
