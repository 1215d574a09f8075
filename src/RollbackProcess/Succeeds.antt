-- ===== src/RollbackProcess/Succeeds.antt =====
-- node-stm32f103/bootloader/src/image_installer.c: `ImageInstaller_ProcessRollback` as a whole, when no
-- flash call fails.
use secure_delta_ota_bootloa.Base.{
  ℕ, ◌*◌, ◌≤◌, ◌≡◌, ◌≢◌, ◌⊎◌, inl, inr, refl, ap, sym, ◌∙◌, subst, true, false, Option, some, arith,
  ◌!=◌,
}
use secure_delta_ota_bootloa.Base.Bytes.{IsU32}
use secure_delta_ota_bootloa.Base.Range.{read_range, read_range-eq}
use secure_delta_ota_bootloa.Memory.{application_start_address, application_max_size}
use secure_delta_ota_bootloa.Crc32.{calculate}
use secure_delta_ota_bootloa.BootMetadata.{BootMetadata, code, rollback}
use secure_delta_ota_bootloa.BootMetadata.Image.{IsRecord}
use secure_delta_ota_bootloa.BackupImage.{BackupImage}
use secure_delta_ota_bootloa.Flash.{Flash, FlashLaws}
use secure_delta_ota_bootloa.NorFlash.{NorFlash, NorLaws, IsReadable, SameMemory}
use secure_delta_ota_bootloa.MetadataStorage.Healthy.{IsHealthy}
use secure_delta_ota_bootloa.ApplicationJump
use secure_delta_ota_bootloa.ApplicationJump.{application_ok}
use secure_delta_ota_bootloa.ExternalStorage
use secure_delta_ota_bootloa.BackupStorage.Frame.{image_start}
use secure_delta_ota_bootloa.InstallerCrc.{BackupCheck, accepted, validate_backup}
use secure_delta_ota_bootloa.InstallerCrc.Backup.{
  validate_backup-accepted, validate_backup-SameMemory,
}
use secure_delta_ota_bootloa.Rollback.{ok, Board, CopyResult, application_pages}
use secure_delta_ota_bootloa.Rollback.Healthy.{IsRollingBack}
use secure_delta_ota_bootloa.Rollback.Complete.{accepted_offset}
use secure_delta_ota_bootloa.Rollback.Restore.{application_bytes, backup_bytes}
use secure_delta_ota_bootloa.RollbackProcess.{
  begin_rollback, rollback_diagnostic, copy_and_finish, run_rollback, run_accepted,
  process_rollback,
}
use secure_delta_ota_bootloa.RollbackProcess.Success.{copy_and_finish-ok}
use secure_delta_ota_bootloa.RollbackProcess.Complete.{copy_and_finish_succeeds, HasValidVector}
use secure_delta_ota_bootloa.RollbackProcess.Begin.{
  HasUpdate, rollback_diagnostic-IsU32, begin_rollback_lem, candidate-begun,
}

module _ (flash : Flash) (laws : FlashLaws flash) (healthy : IsHealthy flash) (nor : NorFlash)
    (nor_laws : NorLaws nor) (readable : IsReadable nor) where
  -- The backup is in the application region, and the region can be started.
  abbrev IsRolledBack : Board flash nor → CopyResult flash nor → Type 0
  IsRolledBack b result =
      (result.status ≡ ok)
      × (application_bytes flash laws nor nor_laws application_max_size result.board
          ≡ backup_bytes flash laws nor nor_laws application_max_size b)
      × (ApplicationJump.validate application_start_address (flash.read result.board.internal)
          ≡ application_ok)

  -- The record of a rollback in progress is at a page up to which the region was restored.
  abbrev pub IsResumable : ℕ → BootMetadata → Board flash nor → Type 0
  IsResumable k m b =
      (m.state ≡ code rollback)
      × (m.copy_offset ≡ 1024 * k)
      × (k ≤ application_pages)
      × (application_bytes flash laws nor nor_laws m.copy_offset b
          ≡ backup_bytes flash laws nor nor_laws m.copy_offset b)

  copy_and_finish-IsRolledBack :
      (k diagnostic : ℕ) (header : BackupImage) (m : BootMetadata) (b : Board flash nor)
      → IsRecord m
      → HasUpdate m
      → IsResumable k m b
      → IsU32 diagnostic
      → IsU32 header.active_version
      → header.image_crc32 ≡ calculate (backup_bytes flash laws nor nor_laws application_max_size b)
      → HasValidVector flash laws healthy nor nor_laws readable b
      → IsRolledBack b (copy_and_finish flash nor diagnostic header m b)
  copy_and_finish-IsRolledBack k diagnostic header m b words_ok update
        (rolling, at_k, inside, before) word version crc vector =
      let going : IsRollingBack m = record {
        rolling = rolling;
        payload = update.payload;
        bounded = update.bounded;
        pending = update.pending;
        attempts = update.attempts;
      } in
      let done =
        copy_and_finish_succeeds flash laws healthy nor nor_laws readable k diagnostic header m b
          words_ok going at_k inside before word version crc vector in
      let (restored, startable) =
        copy_and_finish-ok flash laws nor nor_laws diagnostic header m b words_ok before done in
      (done, restored, startable)

  -- What is asked of the backup, and what the rollback leaves, on two devices with the same bytes.
  image-same :
      (b c : Board flash nor)
      → SameMemory nor b.external c.external
      → (n : ℕ)
      → backup_bytes flash laws nor nor_laws n c ≡ backup_bytes flash laws nor nor_laws n b
  image-same b c same n =
      read_range-eq (nor.memory c.external) (nor.memory b.external) image_start n
        (λ a lo hi. same a)

  vector-same :
      (b c : Board flash nor)
      → SameMemory nor b.external c.external
      → HasValidVector flash laws healthy nor nor_laws readable b
      → HasValidVector flash laws healthy nor nor_laws readable c
  vector-same b c same vector = rw (image-same b c same 8) vector

  run_rollback_begins :
      (header : BackupImage) (m : BootMetadata) (b : Board flash nor)
      → IsRecord m
      → HasUpdate m
      → m.state ≢ code rollback
      → IsU32 header.active_version
      → header.image_crc32 ≡ calculate (backup_bytes flash laws nor nor_laws application_max_size b)
      → HasValidVector flash laws healthy nor nor_laws readable b
      → IsRolledBack b (run_rollback flash nor header m b)
  run_rollback_begins header m b words_ok update other version crc vector =
      let diagnostic = rollback_diagnostic m in
      let word = rollback_diagnostic-IsU32 m words_ok update in
      let started = begin_rollback flash nor diagnostic m b in
      let (going, outside, committed, record_ok) =
        begin_rollback_lem flash laws healthy nor nor_laws readable diagnostic m b word words_ok
          update in
      let (still, rolling, at_zero) =
        candidate-begun flash laws healthy nor nor_laws readable diagnostic m b update in
      let same : SameMemory nor b.external started.board.external =
        λ a. ap (λ d. nor.memory d a) outside in
      let offset : started.metadata.copy_offset ≡ 0 = ap (λ r. r.copy_offset) committed ∙ at_zero in
      let (done, restored, startable) =
        copy_and_finish-IsRolledBack 0 diagnostic header started.metadata started.board
          (subst IsRecord (sym committed) record_ok) (subst HasUpdate (sym committed) still)
          (
            ap (λ r. r.state) committed ∙ rolling,
            offset,
            omega arith,
            rw offset (unfold read_range in refl),
          )
          word version
          (crc ∙ ap calculate (sym (image-same b started.board same application_max_size)))
          (vector-same b started.board same vector) in
      let begins : (m.state != code rollback) ≡ true = ground (arith, other) in
      unfold run_rollback in
      rw (begins, going)
        (done, restored ∙ image-same b started.board same application_max_size, startable)

  run_rollback_resumes :
      (k : ℕ) (header : BackupImage) (m : BootMetadata) (b : Board flash nor)
      → IsRecord m
      → HasUpdate m
      → IsResumable k m b
      → IsU32 header.active_version
      → header.image_crc32 ≡ calculate (backup_bytes flash laws nor nor_laws application_max_size b)
      → HasValidVector flash laws healthy nor nor_laws readable b
      → IsRolledBack b (run_rollback flash nor header m b)
  run_rollback_resumes k header m b words_ok update resumable version crc vector =
      let (rolling, at_k, inside, _) = resumable in
      let resumes : (m.state != code rollback) ≡ false = ground (arith, rolling) in
      let word = rollback_diagnostic-IsU32 m words_ok update in
      unfold run_rollback in
      rw (resumes, accepted_offset k m.copy_offset at_k inside)
        (copy_and_finish-IsRolledBack k (rollback_diagnostic m) header m b words_ok update resumable
          word version crc vector)

  run_accepted-some :
      (checked : BackupCheck × Option BackupImage × nor.Device) (header : BackupImage)
      (m : BootMetadata) (d : flash.Device)
      → checked.0 ≡ accepted
      → checked.1 ≡ some header
      → run_accepted flash nor checked m d
        ≡ run_rollback flash nor header m (record { internal = d; external = checked.2 })
  run_accepted-some (status, found, e) header m d good is_some = rw (good, is_some) refl

  -- When no call of the internal flash fails, and the external flash initializes and can be read, a
  -- rollback succeeds and leaves the backup in the application region, with a vector table that the jump
  -- accepts. The record holds a complete payload inside the incoming region, a pending version, and at
  -- most three trials; it is in another state than the rollback, or in that state at the start of a page
  -- up to which the region was restored. The header and the CRC of the backup are accepted, the version
  -- in the header is a word of 32 bits, and the image begins with a valid vector table.
  pub process_rollback_succeeds :
      (k : ℕ) (header : BackupImage) (m : BootMetadata) (b : Board flash nor)
      → IsRecord m
      → HasUpdate m
      → (m.state ≢ code rollback) ⊎ IsResumable k m b
      → (ExternalStorage.init nor b.external).0 ≡ true
      → (validate_backup nor (ExternalStorage.init nor b.external).1).0 ≡ accepted
      → (validate_backup nor (ExternalStorage.init nor b.external).1).1 ≡ some header
      → IsU32 header.active_version
      → HasValidVector flash laws healthy nor nor_laws readable b
      → let result = process_rollback flash nor m b in
        (result.status ≡ ok)
        × (application_bytes flash laws nor nor_laws application_max_size result.board
            ≡ backup_bytes flash laws nor nor_laws application_max_size b)
        × (ApplicationJump.validate application_start_address (flash.read result.board.internal)
            ≡ application_ok)
  process_rollback_succeeds k header m b words_ok update from ready good found version vector =
      let run : process_rollback flash nor m b ≡ run_rollback flash nor header m c =
        unfold process_rollback in
        rw ready (run_accepted-some (validate_backup nor d) header m b.internal good found) in
      rw run (elim from [
        | inl other ↦ back (run_rollback flash nor header m c) (
            run_rollback_begins header m c words_ok update other version crc
              (vector-same b c same vector))
        | inr (rolling, at_k, inside, before) ↦ back (run_rollback flash nor header m c) (
            run_rollback_resumes k header m c words_ok update
              (rolling, at_k, inside, before ∙ sym (image-same b c same m.copy_offset)) version crc
              (vector-same b c same vector))
      ])
    where
      d : nor.Device
      d = (ExternalStorage.init nor b.external).1

      c : Board flash nor
      c = record { internal = b.internal; external = (validate_backup nor d).2 }

      same : SameMemory nor b.external c.external
      same a =
          validate_backup-SameMemory nor nor_laws d a
          ∙ (unfold ExternalStorage.init in nor_laws.init_frame b.external a)

      crc :
          header.image_crc32
          ≡ calculate (backup_bytes flash laws nor nor_laws application_max_size c)
      crc =
          sym (validate_backup-accepted nor nor_laws d header good found)
          ∙ ap calculate (
              sym (
                read_range-eq (nor.memory c.external) (nor.memory d) image_start
                  application_max_size (λ a lo hi. validate_backup-SameMemory nor nor_laws d a)))

      back : (result : CopyResult flash nor) → IsRolledBack c result → IsRolledBack b result
      back result (done, restored, startable) =
          (done, restored ∙ image-same b c same application_max_size, startable)
