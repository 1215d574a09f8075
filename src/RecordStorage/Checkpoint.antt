-- ===== src/RecordStorage/Checkpoint.antt =====
-- node-stm32f103/common/storage/download_checkpoint_storage.c: the download checkpoint in the
-- external metadata sectors, next to the handoff.
use secure_delta_ota_bootloa.Base.{ℕ, ◌≡◌, ◌≢◌, Option, none, some, refl, arith}
use secure_delta_ota_bootloa.DownloadCheckpoint.{DownloadCheckpoint, init_idle, idle, code}
use secure_delta_ota_bootloa.DownloadCheckpoint.Image.{IsRecord, seal}
use secure_delta_ota_bootloa.NorFlash.{NorFlash, NorLaws}
use secure_delta_ota_bootloa.RecordStorage
use secure_delta_ota_bootloa.RecordStorage.{StoreResult, ok, read_failed, candidate}
use secure_delta_ota_bootloa.RecordStorage.Kinds.{
  handoff_kind, checkpoint_kind, handoff_laws, checkpoint_laws, checkpoint-handoff-AreApart,
}
use secure_delta_ota_bootloa.RecordStorage.Load.{store_commit-load}

-- The state, the update and the offset of a checkpoint that was found.
abbrev pub progress : Option DownloadCheckpoint → Option (ℕ × ℕ × ℕ)
progress none = none
progress (some r) = some (r.state, r.update_id, r.next_offset)

module _ (nor : NorFlash) where
  open nor use {Device}

  unfoldable pub load : Device → StoreResult DownloadCheckpoint Device
  unfolding RecordStorage.load
  load d = RecordStorage.load checkpoint_kind nor d

  unfoldable pub commit : Option DownloadCheckpoint → Device → StoreResult DownloadCheckpoint Device
  unfolding RecordStorage.commit
  commit requested d = RecordStorage.commit checkpoint_kind nor handoff_kind requested d

  unfoldable pub clear : Device → StoreResult DownloadCheckpoint Device
  unfolding commit
  clear d = commit (some init_idle) d

  module _ (laws : NorLaws nor) where
    init_idle-IsRecord : IsRecord init_idle
    unfolding init_idle
    init_idle-IsRecord = omega arith

    -- After a clear that reports success, a load that reads both sectors finds a checkpoint, in the
    -- idle state and of no update.
    pub clear-load :
        (d : Device)
        → (clear d).status ≡ ok
        → (load (clear d).device).status ≢ read_failed
        → ((load (clear d).device).status ≡ ok)
          × (progress (load (clear d).device).found ≡ some (code idle, 0, 0))
    unfolding clear commit load init_idle
    clear-load d success readable =
        let (_, good, found, _) =
          store_commit-load checkpoint_kind handoff_kind nor laws checkpoint_laws handoff_laws
            checkpoint-handoff-AreApart init_idle d init_idle-IsRecord success readable in
        (good, rw found (unfold candidate in unfold seal in refl))
