-- ===== src/Rollback/Copy.antt =====
-- node-stm32f103/bootloader/src/image_installer.c: the loop of `ResumeRollbackCopy`.
use secure_delta_ota_bootloa.Base.{
  ℕ, zero, suc, ◌+◌, ◌*◌, ◌≤◌, ◌<◌, ◌≡◌, inl, inr, refl, sym, ◌∙◌, subst, true, false, arith,
  Bool-cases, ltb,
}
use secure_delta_ota_bootloa.Memory.{application_max_size}
use secure_delta_ota_bootloa.BootMetadata.{BootMetadata}
use secure_delta_ota_bootloa.BootMetadata.Image.{IsRecord}
use secure_delta_ota_bootloa.Flash.{Flash, FlashLaws}
use secure_delta_ota_bootloa.NorFlash.{NorFlash, NorLaws, SameMemory}
use secure_delta_ota_bootloa.Rollback.{ok, is_ok, Board, CopyResult, copy_page, copy_pages}
use secure_delta_ota_bootloa.Rollback.Page.{is_ok_eq}
use secure_delta_ota_bootloa.Rollback.Round.{Restored, Round, copy_page-Round}

module _ (flash : Flash) (flash_laws : FlashLaws flash) (nor : NorFlash)
    (nor_laws : NorLaws nor) where
  -- What holds of every result of the loop, errors included.
  pub record Copied (b : Board flash nor) (result : CopyResult flash nor) : Type 0 where
    pub restored : Restored flash flash_laws nor nor_laws result.metadata.copy_offset result.board
    pub same : SameMemory nor b.external result.board.external
    pub complete : result.status ≡ ok → result.metadata.copy_offset ≡ application_max_size

  -- The loop from round `k` on ends at the end of the application region when its rounds are enough.
  pub copy_pages-Copied :
      (pages k : ℕ) (m : BootMetadata) (b : Board flash nor)
      → IsRecord m
      → m.copy_offset ≡ 1024 * k
      → k ≤ 38
      → 38 ≤ k + pages
      → Restored flash flash_laws nor nor_laws (1024 * k) b
      → Copied b (copy_pages flash nor pages m b)
  unfolding copy_pages
  copy_pages-Copied zero k m b words_ok at_k inside enough before = record {
    restored = rw at_k before;
    same = λ a. refl;
    complete = λ done. omega arith;
  }
  copy_pages-Copied (suc pages) k m b words_ok at_k inside enough before =
      elim (Bool-cases (ltb k 38)) [
        | inr last ↦
            let stop : ltb m.copy_offset application_max_size ≡ false =
              ground (arith, at_k, last) in
            rw stop record {
              restored = rw at_k before;
              same = λ a. refl;
              complete = λ done. ground (arith, at_k, last, inside);
            }
        | inl more ↦
            let short : k < 38 = ground (arith, more) in
            let go_on : ltb m.copy_offset application_max_size ≡ true =
              ground (arith, at_k, short) in
            let round = copy_page flash nor m.copy_offset m b in
            let step : Round flash flash_laws nor nor_laws k b round =
              subst
                (λ offset. Round flash flash_laws nor nor_laws k b (copy_page flash nor offset m b))
                (sym at_k)
                (copy_page-Round flash flash_laws nor nor_laws k m b words_ok at_k short before) in
            rw go_on (elim (Bool-cases (is_ok round.status)) [
              | inr stopped ↦ rw stopped record {
                restored = step.restored;
                same = step.same;
                complete = λ e. absurd (ground (arith, e, stopped));
              }
              | inl good ↦
                  let (next, record_ok) = step.advanced (is_ok_eq _ good) in
                  let rest =
                    copy_pages-Copied pages (suc k) round.metadata round.board record_ok next
                      (omega (arith, short)) (omega (arith, enough))
                      (subst (λ n. Restored flash flash_laws nor nor_laws n round.board) next
                        step.restored) in
                  rw good record {
                    restored = rest.restored;
                    same = λ a. rest.same a ∙ step.same a;
                    complete = rest.complete;
                  }
            ])
      ]
