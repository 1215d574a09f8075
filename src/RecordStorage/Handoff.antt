-- ===== src/RecordStorage/Handoff.antt =====
-- node-stm32f103/common/storage/update_handoff_storage.c: the update handoff in the external metadata
-- sectors, next to the download checkpoint.
use secure_delta_ota_bootloa.Base.{Option}
use secure_delta_ota_bootloa.UpdateHandoff.{UpdateHandoff}
use secure_delta_ota_bootloa.NorFlash.{NorFlash}
use secure_delta_ota_bootloa.RecordStorage
use secure_delta_ota_bootloa.RecordStorage.{StoreResult}
use secure_delta_ota_bootloa.RecordStorage.Kinds.{handoff_kind, checkpoint_kind}

module _ (nor : NorFlash) where
  open nor use {Device}

  unfoldable pub load : Device → StoreResult UpdateHandoff Device
  unfolding RecordStorage.load
  load d = RecordStorage.load handoff_kind nor d

  unfoldable pub commit : Option UpdateHandoff → Device → StoreResult UpdateHandoff Device
  unfolding RecordStorage.commit
  commit requested d = RecordStorage.commit handoff_kind nor checkpoint_kind requested d
