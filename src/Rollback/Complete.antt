-- ===== src/Rollback/Complete.antt =====
-- node-stm32f103/bootloader/src/image_installer.c: the loop of `ResumeRollbackCopy` when no flash call
-- fails.
use secure_delta_ota_bootloa.Base.{
  ℕ, zero, suc, ◌*◌, ◌≤◌, ◌<◌, ◌≡◌, inl, inr, refl, sym, subst, true, false, arith, Bool-cases, ltb,
}
use secure_delta_ota_bootloa.Base.Bits.{bit_and_low}
use secure_delta_ota_bootloa.Memory.{application_max_size}
use secure_delta_ota_bootloa.BootMetadata.{BootMetadata, finalize}
use secure_delta_ota_bootloa.BootMetadata.Image.{IsRecord}
use secure_delta_ota_bootloa.Flash.{Flash, FlashLaws}
use secure_delta_ota_bootloa.NorFlash.{NorFlash, NorLaws, IsReadable}
use secure_delta_ota_bootloa.Progress.{install_validate, is_install_valid}
use secure_delta_ota_bootloa.MetadataStorage.{candidate}
use secure_delta_ota_bootloa.MetadataStorage.Newest.{candidate-IsRecord}
use secure_delta_ota_bootloa.MetadataStorage.Healthy.{IsHealthy, commit_succeeds}
use secure_delta_ota_bootloa.MetadataStorage.Commit.{commit-load}
use secure_delta_ota_bootloa.Rollback.Round.{next_checkpoint_lem, moved-IsRecord}
use secure_delta_ota_bootloa.Rollback.{
  ok, Board, CopyResult, program_backup_page, copy_page, copy_pages, application_pages,
  resume_rollback_copy,
}
use secure_delta_ota_bootloa.Rollback.Healthy.{
  IsRollingBack, candidate_accepted, program_backup_page_ok,
}

pub accepted_offset :
    (k offset : ℕ)
    → offset ≡ 1024 * k
    → k ≤ 38
    → is_install_valid (install_validate application_max_size offset) ≡ true
unfolding install_validate
accepted_offset k offset at_k inside = ground (arith, bit_and_low 10 offset, at_k, inside)

module _ (flash : Flash) (laws : FlashLaws flash) (healthy : IsHealthy flash) (nor : NorFlash)
    (nor_laws : NorLaws nor) (readable : IsReadable nor) where
  record Advanced (k : ℕ) (result : CopyResult flash nor) : Type 0 where
    status_ok : result.status ≡ ok
    at_next : result.metadata.copy_offset ≡ 1024 * suc k
    record_ok : IsRecord result.metadata
    rolling_on : IsRollingBack result.metadata

  copy_page-Advanced :
      (k : ℕ) (m : BootMetadata) (b : Board flash nor)
      → IsRecord m
      → IsRollingBack m
      → k < 38
      → Advanced k (copy_page flash nor (1024 * k) m b)
  copy_page-Advanced k m b words_ok rolling short =
      let moved : BootMetadata = record m { copy_offset = 1024 * suc k } in
      let programmed = program_backup_page flash nor (1024 * k) b in
      let good = program_backup_page_ok flash laws healthy nor nor_laws readable k b short in
      let moved_ok =
        moved-IsRecord flash laws nor nor_laws m (1024 * suc k) (omega (arith, short)) words_ok in
      let success = commit_succeeds flash laws healthy moved programmed.1.internal moved_ok (
        candidate_accepted flash laws healthy (suc k) m programmed.1.internal (omega (arith, short))
          rolling) in
      let (handed_back, _) =
        commit-load flash laws 0 moved programmed.1.internal moved_ok success in
      let next = (next_checkpoint_lem k short).1 in
      let c = candidate flash moved programmed.1.internal in
      unfold copy_page in
      rw (good, next, success, handed_back)
        record {
          status_ok = refl;
          at_next = unfold candidate in unfold finalize in refl;
          record_ok = candidate-IsRecord flash laws moved programmed.1.internal moved_ok;
          rolling_on =
              unfold candidate in
              unfold finalize in
              record {
                rolling = rolling.rolling;
                payload = rolling.payload;
                bounded = rolling.bounded;
                pending = rolling.pending;
                attempts = rolling.attempts;
              };
        }

  copy_pages_ok :
      (pages k : ℕ) (m : BootMetadata) (b : Board flash nor)
      → IsRecord m
      → IsRollingBack m
      → m.copy_offset ≡ 1024 * k
      → ((copy_pages flash nor pages m b).status ≡ ok)
        × IsRecord (copy_pages flash nor pages m b).metadata
  unfolding copy_pages
  copy_pages_ok zero k m b words_ok rolling at_k = (refl, words_ok)
  copy_pages_ok (suc pages) k m b words_ok rolling at_k = elim (Bool-cases (ltb k 38)) [
    | inr last ↦
        let stop : ltb m.copy_offset application_max_size ≡ false = ground (arith, at_k, last) in
        rw stop (refl, words_ok)
    | inl more ↦
        let short : k < 38 = ground (arith, more) in
        let go_on : ltb m.copy_offset application_max_size ≡ true = ground (arith, at_k, short) in
        let round = copy_page flash nor m.copy_offset m b in
        let step : Advanced k round =
          subst (λ offset. Advanced k (copy_page flash nor offset m b)) (sym at_k)
            (copy_page-Advanced k m b words_ok rolling short) in
        rw (go_on, step.status_ok)
          (copy_pages_ok pages (suc k) round.metadata round.board step.record_ok step.rolling_on
            step.at_next)
  ]

  -- When no call of the internal flash fails and the external flash can be read, a rollback copy from a
  -- whole number of pages succeeds for every record of a rollback in progress.
  pub rollback_completes :
      (k : ℕ) (m : BootMetadata) (b : Board flash nor)
      → IsRecord m
      → IsRollingBack m
      → m.copy_offset ≡ 1024 * k
      → k ≤ application_pages
      → (resume_rollback_copy flash nor m b).status ≡ ok
  rollback_completes k m b words_ok rolling at_k inside =
      unfold resume_rollback_copy in
      rw (accepted_offset k m.copy_offset at_k inside)
        (copy_pages_ok application_pages k m b words_ok rolling at_k).0

  pub rollback_completes-IsRecord :
      (k : ℕ) (m : BootMetadata) (b : Board flash nor)
      → IsRecord m
      → IsRollingBack m
      → m.copy_offset ≡ 1024 * k
      → k ≤ application_pages
      → IsRecord (resume_rollback_copy flash nor m b).metadata
  rollback_completes-IsRecord k m b words_ok rolling at_k inside =
      unfold resume_rollback_copy in
      rw (accepted_offset k m.copy_offset at_k inside)
        (copy_pages_ok application_pages k m b words_ok rolling at_k).1
