-- ===== src/Rollback/Restore.antt =====
-- node-stm32f103/bootloader/src/image_installer.c: what `ResumeRollbackCopy` leaves in the application
-- region.
use secure_delta_ota_bootloa.Base.{
  ℕ, ◌+◌, ◌*◌, ◌/◌, ◌≤◌, ◌≡◌, inl, inr, refl, ◌∙◌, subst, true, List, arith, Bool-cases,
}
use secure_delta_ota_bootloa.Base.Bits.{bit_and_low}
use secure_delta_ota_bootloa.Base.Range.{read_range, read_range-pointwise, read_range-shift}
use secure_delta_ota_bootloa.Memory.{application_start_address, application_max_size}
use secure_delta_ota_bootloa.BootMetadata.{BootMetadata}
use secure_delta_ota_bootloa.BootMetadata.Image.{IsRecord}
use secure_delta_ota_bootloa.Flash.{Flash, FlashLaws}
use secure_delta_ota_bootloa.NorFlash.{NorFlash, NorLaws, SameMemory}
use secure_delta_ota_bootloa.Progress.{install_validate, is_install_valid}
use secure_delta_ota_bootloa.BackupStorage.Frame.{image_start}
use secure_delta_ota_bootloa.Rollback.{ok, Board, application_pages, resume_rollback_copy}
use secure_delta_ota_bootloa.Rollback.Round.{Restored}
use secure_delta_ota_bootloa.Rollback.Copy.{Copied, copy_pages-Copied}

-- A valid checkpoint is a whole number of pages.
valid_offset :
    (offset : ℕ)
    → is_install_valid (install_validate application_max_size offset) ≡ true
    → (offset ≡ 1024 * (offset / 1024)) × (offset / 1024 ≤ 38)
unfolding install_validate
valid_offset offset h = ground (arith, bit_and_low 10 offset)

module _ (flash : Flash) (flash_laws : FlashLaws flash) (nor : NorFlash)
    (nor_laws : NorLaws nor) where
  resume_rollback_copy-Copied :
      (m : BootMetadata) (b : Board flash nor)
      → IsRecord m
      → Restored flash flash_laws nor nor_laws m.copy_offset b
      → Copied flash flash_laws nor nor_laws b (resume_rollback_copy flash nor m b)
  resume_rollback_copy-Copied m b words_ok before =
      elim (Bool-cases (is_install_valid (install_validate application_max_size m.copy_offset))) [
        | inr bad ↦
            unfold resume_rollback_copy in
            rw bad record { restored = before; same = λ a. refl; complete = λ e. absurd (cc) }
        | inl good ↦
            let (at_k, inside) = valid_offset m.copy_offset good in
            unfold resume_rollback_copy in
            rw good (
              copy_pages-Copied flash flash_laws nor nor_laws application_pages
                (m.copy_offset / 1024) m b words_ok at_k inside (omega arith)
                (subst (λ n. Restored flash flash_laws nor nor_laws n b) at_k before))
      ]

  -- The bytes of the application region and of the backup's image.
  abbrev pub application_bytes : ℕ → Board flash nor → List ℕ
  application_bytes n b = read_range (flash.read b.internal) application_start_address n

  abbrev pub backup_bytes : ℕ → Board flash nor → List ℕ
  backup_bytes n b = read_range (nor.memory b.external) image_start n

  to_bytes :
      (n : ℕ) (b c : Board flash nor)
      → Restored flash flash_laws nor nor_laws n c
      → SameMemory nor b.external c.external
      → application_bytes n c ≡ backup_bytes n b
  to_bytes n b c restored same =
      read_range-shift (flash.read c.internal) (nor.memory b.external) application_start_address
        image_start n (λ i h. restored i h ∙ same (image_start + i))

  of_bytes :
      (n : ℕ) (b : Board flash nor)
      → application_bytes n b ≡ backup_bytes n b
      → Restored flash flash_laws nor nor_laws n b
  of_bytes n b e a h =
      read_range-pointwise (flash.read b.internal) (nor.memory b.external) application_start_address
        image_start n a e h

  -- If the application region equals the backup up to the checkpoint that a rollback copy starts from,
  -- it equals the backup up to the checkpoint that the copy ends with, whatever it returns: after any
  -- error the copy can go on from there. The backup is not changed.
  pub rollback_checkpoint :
      (m : BootMetadata) (b : Board flash nor)
      → IsRecord m
      → application_bytes m.copy_offset b ≡ backup_bytes m.copy_offset b
      → let result = resume_rollback_copy flash nor m b in
        (application_bytes result.metadata.copy_offset result.board
          ≡ backup_bytes result.metadata.copy_offset b)
        × (backup_bytes application_max_size result.board ≡ backup_bytes application_max_size b)
  rollback_checkpoint m b words_ok before =
      let c = resume_rollback_copy-Copied m b words_ok (of_bytes m.copy_offset b before) in
      let result = resume_rollback_copy flash nor m b in
      (
        to_bytes result.metadata.copy_offset b result.board c.restored c.same,
        read_range-shift (nor.memory result.board.external) (nor.memory b.external) image_start
            image_start application_max_size (λ i h. c.same (image_start + i)),
      )

  -- A rollback copy that reports success went on to the end, and the whole application region then
  -- equals the image of the backup, if it did so up to the checkpoint that the copy started from.
  pub rollback_restores :
      (m : BootMetadata) (b : Board flash nor)
      → IsRecord m
      → application_bytes m.copy_offset b ≡ backup_bytes m.copy_offset b
      → (resume_rollback_copy flash nor m b).status ≡ ok
      → let result = resume_rollback_copy flash nor m b in
        (result.metadata.copy_offset ≡ application_max_size)
        × (application_bytes application_max_size result.board
            ≡ backup_bytes application_max_size b)
  rollback_restores m b words_ok before done =
      let c = resume_rollback_copy-Copied m b words_ok (of_bytes m.copy_offset b before) in
      let result = resume_rollback_copy flash nor m b in
      let at_end = c.complete done in
      (
        at_end,
        subst (λ n. application_bytes n result.board ≡ backup_bytes n b) at_end
            (to_bytes result.metadata.copy_offset b result.board c.restored c.same),
      )
