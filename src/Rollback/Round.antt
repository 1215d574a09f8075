-- ===== src/Rollback/Round.antt =====
-- node-stm32f103/bootloader/src/image_installer.c: the rounds of
-- `ResumeRollbackCopy`.
use secure_delta_ota_bootloa.Base.{
  ℕ, suc, ◌+◌, ◌-◌, ◌*◌, ◌≤◌, ◌<◌, ◌≡◌, inl, inr, refl, ap, sym, ◌∙◌, subst, true, some, arith,
  Bool-cases, ltb,
}
use secure_delta_ota_bootloa.Base.Bits.{bit_and_low}
use secure_delta_ota_bootloa.Base.Bytes.{IsU32}
use secure_delta_ota_bootloa.Base.Range.{read_range-pointwise}
use secure_delta_ota_bootloa.Memory.{application_start_address, application_max_size}
use secure_delta_ota_bootloa.BootMetadata.{BootMetadata, finalize}
use secure_delta_ota_bootloa.BootMetadata.Image.{IsRecord}
use secure_delta_ota_bootloa.Flash.{Flash, FlashLaws}
use secure_delta_ota_bootloa.NorFlash.{NorFlash, NorLaws, SameMemory}
use secure_delta_ota_bootloa.Progress.{install_page_length, install_next_checkpoint}
use secure_delta_ota_bootloa.MetadataStorage
use secure_delta_ota_bootloa.MetadataStorage.{commit, candidate}
use secure_delta_ota_bootloa.MetadataStorage.Newest.{candidate-IsRecord}
use secure_delta_ota_bootloa.MetadataStorage.Commit.{commit-load, commit-frame}
use secure_delta_ota_bootloa.BackupStorage.Frame.{image_start}
use secure_delta_ota_bootloa.Rollback.{
  ok, is_ok, Board, CopyResult, program_backup_page, committed_or, copy_page,
}
use secure_delta_ota_bootloa.Rollback.Page.{
  is_ok_eq, program_backup_page-Programmed, page_length_at,
}

-- The checkpoint after whole pages.
pub next_checkpoint_lem :
    (k : ℕ)
    → k < 38
    → (install_page_length application_max_size (1024 * k) ≡ 1024)
      × (install_next_checkpoint application_max_size (1024 * k) ≡ 1024 * suc k)
unfolding install_next_checkpoint
next_checkpoint_lem k h = ground (arith, bit_and_low 10 (1024 * k))

module _ (flash : Flash) (flash_laws : FlashLaws flash) (nor : NorFlash)
    (nor_laws : NorLaws nor) where
  -- The first `k` bytes of the application region are those of the backup's image.
  abbrev pub Restored : ℕ → Board flash nor → Type 0
  Restored k b =
      (a : ℕ)
      → a < k
      → flash.read b.internal (application_start_address + a)
        ≡ nor.memory b.external (image_start + a)

  Restored-kept :
      (k : ℕ) (b c : Board flash nor)
      → Restored k b
      → SameMemory nor b.external c.external
      → ((a : ℕ)
          → a < k
          → flash.read c.internal (application_start_address + a)
            ≡ flash.read b.internal (application_start_address + a))
      → Restored k c
  Restored-kept k b c before same frame a lo =
      frame a lo ∙ before a lo ∙ sym (same (image_start + a))

  -- Programming the next page keeps what is restored, and extends it when it succeeds.
  Restored-page :
      (k : ℕ) (b : Board flash nor)
      → Restored (1024 * k) b
      → Restored (1024 * k) (program_backup_page flash nor (1024 * k) b).1
  Restored-page k b before =
      let page = program_backup_page-Programmed flash flash_laws nor nor_laws (1024 * k) b in
      Restored-kept (1024 * k) b (program_backup_page flash nor (1024 * k) b).1 before page.same
        (λ a lo. page.frame (application_start_address + a) (inl (omega (arith, lo))))

  Restored-more :
      (k : ℕ) (b : Board flash nor)
      → k < 38
      → Restored (1024 * k) b
      → (program_backup_page flash nor (1024 * k) b).0 ≡ ok
      → Restored (1024 * suc k) (program_backup_page flash nor (1024 * k) b).1
  Restored-more k b inside before done a lo = elim (Bool-cases (ltb a (1024 * k))) [
    | inl old ↦ Restored-page k b before a (ground (arith, old))
    | inr new' ↦
        let programmed = program_backup_page flash nor (1024 * k) b in
        let page = program_backup_page-Programmed flash flash_laws nor nor_laws (1024 * k) b in
        let len = (next_checkpoint_lem k inside).0 in
        let high : 1024 * k ≤ a = ground (arith, new') in
        ap (flash.read programmed.1.internal) (omega (arith, high))
        ∙ read_range-pointwise (flash.read programmed.1.internal) (nor.memory b.external)
            (application_start_address + 1024 * k) (image_start + 1024 * k)
            (page_length_at flash flash_laws nor nor_laws (1024 * k)) (a - 1024 * k)
            (page.value done).0 (omega (arith, len, high, lo))
        ∙ ap (nor.memory b.external) (omega (arith, high))
        ∙ sym (page.same (image_start + a))
  ]

  -- A commit of the metadata does not reach the application region.
  Restored-commit :
      (k : ℕ) (m : BootMetadata) (b : Board flash nor)
      → k ≤ application_max_size
      → Restored k b
      → Restored k
          (record { internal = (commit flash (some m) b.internal).device; external = b.external })
  Restored-commit k m b inside before a lo =
      commit-frame flash flash_laws m b.internal (application_start_address + a)
        (inl (omega (arith, lo))) (inl (omega (arith, lo)))
      ∙ before a lo

  pub moved-IsRecord :
      (m : BootMetadata) (offset : ℕ)
      → IsU32 offset
      → IsRecord m
      → IsRecord (record m { copy_offset = offset })
  moved-IsRecord m offset word h = omega (arith, word, h)

  abbrev moved_to : ℕ → BootMetadata → BootMetadata
  moved_to k m = record m { copy_offset = 1024 * k }

  -- What holds of every result of one round, errors included.
  pub record Round (k : ℕ) (b : Board flash nor) (result : CopyResult flash nor) : Type 0 where
    pub restored : Restored result.metadata.copy_offset result.board
    pub same : SameMemory nor b.external result.board.external
    pub advanced :
        result.status ≡ ok → (result.metadata.copy_offset ≡ 1024 * suc k) × IsRecord result.metadata

  storage_ok :
      (s : MetadataStorage.StorageStatus) → MetadataStorage.is_ok s ≡ true → s ≡ MetadataStorage.ok
  storage_ok s h = ground arith

  pub committed_lem :
      (m : BootMetadata) (d : flash.Device)
      → IsRecord m
      → MetadataStorage.is_ok (commit flash (some m) d).status ≡ true
      → (committed_or flash nor m (commit flash (some m) d).committed).copy_offset ≡ m.copy_offset
        × IsRecord (committed_or flash nor m (commit flash (some m) d).committed)
  committed_lem m d words_ok success =
      let (handed_back, _) = commit-load flash flash_laws 0 m d words_ok (storage_ok _ success) in
      subst
        (λ c.
          ((committed_or flash nor m c).copy_offset ≡ m.copy_offset)
          × IsRecord (committed_or flash nor m c))
        (sym handed_back)
        (
          unfold candidate in unfold finalize in refl,
          candidate-IsRecord flash flash_laws m d words_ok,
        )

  pub copy_page-Round :
      (k : ℕ) (m : BootMetadata) (b : Board flash nor)
      → IsRecord m
      → m.copy_offset ≡ 1024 * k
      → k < 38
      → Restored (1024 * k) b
      → Round k b (copy_page flash nor (1024 * k) m b)
  copy_page-Round k m b words_ok at_k short before =
      let next = (next_checkpoint_lem k short).1 in
      let programmed = program_backup_page flash nor (1024 * k) b in
      let page = program_backup_page-Programmed flash flash_laws nor nor_laws (1024 * k) b in
      let moved = moved_to (suc k) m in
      let done = commit flash (some moved) programmed.1.internal in
      elim (Bool-cases (is_ok programmed.0)) [
        | inr stopped ↦
            unfold copy_page in
            rw stopped record {
              restored = rw at_k (Restored-page k b before);
              same = page.same;
              advanced = λ e. absurd (ground (arith, e, stopped));
            }
        | inl good ↦
            let extended =
              Restored-commit (1024 * suc k) moved programmed.1 (omega (arith, short))
                (Restored-more k b short before (is_ok_eq _ good)) in
            elim (Bool-cases (MetadataStorage.is_ok done.status)) [
              | inr failed' ↦
                  unfold copy_page in
                  rw (good, next, failed')
                    record { restored = extended; same = page.same; advanced = λ e. absurd (cc) }
              | inl committed ↦
                  let (kept, record_ok) =
                    committed_lem moved programmed.1.internal
                      (moved-IsRecord m (1024 * suc k) (omega (arith, short)) words_ok) committed in
                  unfold copy_page in
                  rw (good, next, committed)
                    record {
                      restored = rw kept extended;
                      same = page.same;
                      advanced = λ e. (kept, record_ok);
                    }
            ]
      ]
