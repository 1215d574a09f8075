-- ===== src/RollbackProcess/Begin.antt =====
-- node-stm32f103/bootloader/src/image_installer.c: the record that begins a rollback, and its commit when
-- no call of the internal flash fails.
use secure_delta_ota_bootloa.Base.{
  ℕ, ◌≤◌, ◌≡◌, ◌≢◌, inl, inr, refl, true, arith, leb, Bool-cases, ◌==◌,
}
use secure_delta_ota_bootloa.Base.Bytes.{IsU32}
use secure_delta_ota_bootloa.Memory.{ext_incoming_size}
use secure_delta_ota_bootloa.BootMetadata.{
  BootMetadata, code, rollback, max_boot_attempts, finalize,
}
use secure_delta_ota_bootloa.BootMetadata.Checks.{IsComplete}
use secure_delta_ota_bootloa.BootMetadata.Image.{IsRecord}
use secure_delta_ota_bootloa.Flash.{Flash, FlashLaws}
use secure_delta_ota_bootloa.NorFlash.{NorFlash, NorLaws, IsReadable}
use secure_delta_ota_bootloa.MetadataStorage.{candidate}
use secure_delta_ota_bootloa.MetadataStorage.Newest.{candidate-IsRecord, accepts}
use secure_delta_ota_bootloa.MetadataStorage.Healthy.{IsHealthy, commit_succeeds}
use secure_delta_ota_bootloa.MetadataStorage.Commit.{commit-load}
use secure_delta_ota_bootloa.Rollback.{ok, Board}
use secure_delta_ota_bootloa.Rollback.Healthy.{IsRollingBack, candidate_accepted}
use secure_delta_ota_bootloa.RollbackProcess.{
  begun, begin_rollback, rollback_diagnostic, commit_metadata,
}

-- The update that is rolled back: the fields that the state of a rollback asks for.
pub record HasUpdate (m : BootMetadata) : Type 0 where
  pub payload : IsComplete m
  pub bounded : m.expected_size ≤ ext_incoming_size
  pub pending : m.pending_version ≢ 0
  pub attempts : m.boot_attempts ≤ max_boot_attempts

pub rollback_diagnostic-IsU32 :
    (m : BootMetadata) → IsRecord m → HasUpdate m → IsU32 (rollback_diagnostic m)
unfolding rollback_diagnostic
rollback_diagnostic-IsU32 m words_ok update = elim (Bool-cases (m.state == code rollback)) [
  | inl same ↦ rw same (omega (arith, words_ok))
  | inr other ↦ elim (Bool-cases (leb max_boot_attempts m.boot_attempts)) [
    | inl spent ↦
        let three : m.boot_attempts ≡ 3 = ground (arith, spent, update.attempts) in
        rw (other, three) (omega arith)
    | inr left ↦ ground (arith, other, left)
  ]
]

module _ (flash : Flash) (laws : FlashLaws flash) (healthy : IsHealthy flash) where
  begun-IsRollingBack :
      (diagnostic : ℕ) (m : BootMetadata) → HasUpdate m → IsRollingBack (begun diagnostic m)
  unfolding begun
  begun-IsRollingBack diagnostic m update = record {
    rolling = refl;
    payload = update.payload;
    bounded = update.bounded;
    pending = update.pending;
    attempts = update.attempts;
  }

  begun-IsRecord :
      (diagnostic : ℕ) (m : BootMetadata)
      → IsU32 diagnostic
      → IsRecord m
      → IsRecord (begun diagnostic m)
  unfolding begun
  begun-IsRecord diagnostic m word h = omega (arith, word, h)

  begun_accepted :
      (diagnostic : ℕ) (m : BootMetadata) (d : flash.Device)
      → HasUpdate m
      → accepts (candidate flash (begun diagnostic m) d) ≡ true
  unfolding begun
  begun_accepted diagnostic m d update =
      candidate_accepted flash laws healthy 0 (begun diagnostic m) d (omega arith)
        (begun-IsRollingBack diagnostic m update)

module _ (flash : Flash) (laws : FlashLaws flash) (healthy : IsHealthy flash) (nor : NorFlash)
    (nor_laws : NorLaws nor) (readable : IsReadable nor) where
  -- The record and the board with which a rollback that begins goes on.
  pub begin_rollback_lem :
      (diagnostic : ℕ) (m : BootMetadata) (b : Board flash nor)
      → IsU32 diagnostic
      → IsRecord m
      → HasUpdate m
      → let started = begin_rollback flash nor diagnostic m b in
        (started.status ≡ ok)
        × (started.board.external ≡ b.external)
        × (started.metadata ≡ candidate flash (begun diagnostic m) b.internal)
        × IsRecord (candidate flash (begun diagnostic m) b.internal)
  begin_rollback_lem diagnostic m b word words_ok update =
      let first = begun diagnostic m in
      let first_ok = begun-IsRecord flash laws healthy diagnostic m word words_ok in
      let success =
        commit_succeeds flash laws healthy first b.internal first_ok
          (begun_accepted flash laws healthy diagnostic m b.internal update) in
      let (handed_back, _) = commit-load flash laws 0 first b.internal first_ok success in
      unfold begin_rollback in
      unfold commit_metadata in
      rw (success, handed_back)
        (refl, refl, refl, candidate-IsRecord flash laws first b.internal first_ok)

  -- The candidate of the record that begins a rollback.
  pub candidate-begun :
      (diagnostic : ℕ) (m : BootMetadata) (b : Board flash nor)
      → HasUpdate m
      → let c = candidate flash (begun diagnostic m) b.internal in
        HasUpdate c × (c.state ≡ code rollback) × (c.copy_offset ≡ 0)
  unfolding candidate finalize begun
  candidate-begun diagnostic m b update = (
    record {
      payload = update.payload;
      bounded = update.bounded;
      pending = update.pending;
      attempts = update.attempts;
    },
    refl,
    refl,
  )
