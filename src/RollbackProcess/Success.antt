-- ===== src/RollbackProcess/Success.antt =====
-- node-stm32f103/bootloader/src/image_installer.c: what a rollback that reports success leaves.
use secure_delta_ota_bootloa.Base.{
  ℕ, ◌≡◌, inl, inr, refl, ap, sym, ◌∙◌, Bool, true, not, arith, Bool-cases, if◌then◌else◌,
}
use secure_delta_ota_bootloa.Base.Range.{read_range, read_range-shift, read_range-pointwise}
use secure_delta_ota_bootloa.Memory.{application_start_address, application_max_size}
use secure_delta_ota_bootloa.BootMetadata.{BootMetadata}
use secure_delta_ota_bootloa.BootMetadata.Image.{IsRecord}
use secure_delta_ota_bootloa.BackupImage.{BackupImage}
use secure_delta_ota_bootloa.Flash.{Flash, FlashLaws}
use secure_delta_ota_bootloa.NorFlash.{NorFlash, NorLaws}
use secure_delta_ota_bootloa.RecordStorage.Checkpoint.{clear}
use secure_delta_ota_bootloa.ApplicationJump
use secure_delta_ota_bootloa.ApplicationJump.{application_ok, ApplicationStatus}
use secure_delta_ota_bootloa.Rollback.{
  InstallerStatus, ok, is_ok, finalize_failed, rollback_verify_failed, Board, CopyResult,
  resume_rollback_copy,
}
use secure_delta_ota_bootloa.Rollback.Page.{is_ok_eq}
use secure_delta_ota_bootloa.Rollback.Restore.{application_bytes, backup_bytes, rollback_restores}
use secure_delta_ota_bootloa.RollbackProcess.Refused.{commit_metadata-region}
use secure_delta_ota_bootloa.RollbackProcess.{
  mark_failed, copy_and_finish, finalize_rollback, rolled_back, verify_rolled_back,
  is_application_ok,
}

last_check :
    (p q r : Bool)
    → (if p
        then rollback_verify_failed
        else if not q
        then rollback_verify_failed
        else if not r
        then rollback_verify_failed
        else ok)
      ≡ ok
    → r ≡ true
last_check p q r h = ground (arith, h)

application_ok_eq : (s : ApplicationStatus) → is_application_ok s ≡ true → s ≡ application_ok
application_ok_eq s h = ground (arith, h)

module _ (flash : Flash) (laws : FlashLaws flash) (nor : NorFlash) (nor_laws : NorLaws nor) where
  validate-same :
      (f g : ℕ → ℕ)
      → read_range f application_start_address 8 ≡ read_range g application_start_address 8
      → ApplicationJump.validate application_start_address f
        ≡ ApplicationJump.validate application_start_address g
  unfolding ApplicationJump.validate
  validate-same f g e = rw e refl

  verified_application :
      (header : BackupImage) (b : Board flash nor)
      → verify_rolled_back flash nor header b ≡ ok
      → ApplicationJump.validate application_start_address (flash.read b.internal) ≡ application_ok
  unfolding verify_rolled_back
  verified_application header b done = application_ok_eq _ (last_check _ _ _ done)

  -- A copy and its final commit that report success leave the backup in the application region, with a
  -- vector table that the jump accepts, where the region was already restored up to the offset at which
  -- the copy resumes.
  pub copy_and_finish-ok :
      (diagnostic : ℕ) (header : BackupImage) (m : BootMetadata) (b : Board flash nor)
      → IsRecord m
      → application_bytes flash laws nor nor_laws m.copy_offset b
        ≡ backup_bytes flash laws nor nor_laws m.copy_offset b
      → let result = copy_and_finish flash nor diagnostic header m b in
        result.status ≡ ok
        → (application_bytes flash laws nor nor_laws application_max_size result.board
            ≡ backup_bytes flash laws nor nor_laws application_max_size b)
          × (ApplicationJump.validate application_start_address (flash.read result.board.internal)
              ≡ application_ok)
  copy_and_finish-ok diagnostic header m b words_ok before done =
      elim (Bool-cases (is_ok copied.status)) [
        | inr bad ↦
            absurd (unfold copy_and_finish in unfold mark_failed in ground (arith, done, bad))
        | inl good ↦ elim (Bool-cases (is_ok verified)) [
          | inr bad ↦
              absurd
                (unfold copy_and_finish in unfold mark_failed in ground (arith, done, good, bad))
          | inl accepted' ↦
              let run : copy_and_finish flash nor diagnostic header m b ≡ last =
                unfold copy_and_finish in rw (good, accepted') refl in
              let success : last.status ≡ ok = ap (λ r. r.status) (sym run) ∙ done in
              let restored =
                (rollback_restores flash laws nor nor_laws m b words_ok before
                  (is_ok_eq _ good)).1 in
              let kept = last_kept success in
              rw run (
                kept ∙ restored,
                validate-same (flash.read last.board.internal) (flash.read copied.board.internal)
                      (shorter kept)
                    ∙ verified_application header copied.board (is_ok_eq _ accepted'),
              )
        ]
      ]
    where
      copied : CopyResult flash nor
      copied = resume_rollback_copy flash nor m b

      verified : InstallerStatus
      verified = verify_rolled_back flash nor header copied.board

      last : CopyResult flash nor
      last = finalize_rollback flash nor diagnostic header copied.metadata copied.board

      last_kept :
          last.status ≡ ok
          → application_bytes flash laws nor nor_laws application_max_size last.board
            ≡ application_bytes flash laws nor nor_laws application_max_size copied.board
      last_kept success =
          unfold finalize_rollback in
          commit_metadata-region flash laws nor finalize_failed
            (rolled_back diagnostic header copied.metadata)
            (record {
              internal = copied.board.internal;
              external = (clear nor copied.board.external).device;
            })

      shorter :
          application_bytes flash laws nor nor_laws application_max_size last.board
            ≡ application_bytes flash laws nor nor_laws application_max_size copied.board
          → read_range (flash.read last.board.internal) application_start_address 8
            ≡ read_range (flash.read copied.board.internal) application_start_address 8
      shorter e =
          read_range-shift (flash.read last.board.internal) (flash.read copied.board.internal)
            application_start_address application_start_address 8
            (λ i h.
              read_range-pointwise (flash.read last.board.internal)
                (flash.read copied.board.internal) application_start_address
                application_start_address application_max_size i e (omega (arith, h)))
