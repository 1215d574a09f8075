-- ===== src/RecordStorage/Tests.antt =====
-- An external flash whose sector A holds a download checkpoint, and commits to it.
use secure_delta_ota_bootloa.Base.{ℕ, ◌≡◌, ◌≢◌, some, refl, arith}
use secure_delta_ota_bootloa.Base.Image.{bytes_of_words, words_of_bytes}
use secure_delta_ota_bootloa.Base.Bytes.{put_u32_le, le16, le32}
use secure_delta_ota_bootloa.Base.Range.{read_range, bytes_equal}
use secure_delta_ota_bootloa.Slots.{
  is_generation_newer, next_generation, select_newest, select_write,
}
use secure_delta_ota_bootloa.Crc32.{calculate, update, shift_bits, shift_bit}
use secure_delta_ota_bootloa.ExtFlash.{is_range_valid, is_sector_aligned}
use secure_delta_ota_bootloa.ExternalStorage.{
  read, write, resolve_range, get_partition, erase_partition, erase_sectors,
}
use secure_delta_ota_bootloa.UpdateHandoff
use secure_delta_ota_bootloa.UpdateHandoff.{UpdateHandoff}
use secure_delta_ota_bootloa.DownloadCheckpoint
use secure_delta_ota_bootloa.DownloadCheckpoint.{
  DownloadCheckpoint, init_session, init_idle, receiving, idle, code,
}
use secure_delta_ota_bootloa.NorFlash.Ram.{nor_ram, nor_ram-NorLaws, nor_ram-IsReadable, store}
use secure_delta_ota_bootloa.RecordStorage.{
  commit, load, ok, read_failed, candidate, newest_of, partition_for_slot, preserved, read_both,
  read_slot, replace_sector, verify_written, write_records,
}
use secure_delta_ota_bootloa.RecordStorage.Kinds.{
  handoff_kind, checkpoint_kind, handoff_laws, checkpoint_laws, handoff-checkpoint-AreApart,
}
use secure_delta_ota_bootloa.RecordStorage.Load.{store_commit-load, candidate_on}
use secure_delta_ota_bootloa.RecordStorage.Readable.{commit-load_other}
use secure_delta_ota_bootloa.RecordStorage
use secure_delta_ota_bootloa.RecordStorage.Checkpoint.{clear-load, progress}

abbrev checkpoint : DownloadCheckpoint
checkpoint = DownloadCheckpoint.Image.seal 5 (init_session receiving 9 2 0x8000 0x1234 0x1000)

abbrev device : ℕ → ℕ
device = store 0x100 (DownloadCheckpoint.encode checkpoint) (λ a. 0xFF)

abbrev request : UpdateHandoff
request = UpdateHandoff.init 9 2 0x4000 0x5678

-- What a commit and a load compute with.
unfoldable run_code : Unit {0}
unfolding commit load candidate newest_of partition_for_slot preserved read_both read_slot
    replace_sector verify_written write_records read write resolve_range get_partition
    erase_partition erase_sectors is_range_valid is_sector_aligned store read_range bytes_equal
    bytes_of_words words_of_bytes le16 le32 put_u32_le select_newest select_write
    is_generation_newer next_generation calculate update shift_bits shift_bit UpdateHandoff.init
    UpdateHandoff.validate UpdateHandoff.decode UpdateHandoff.encode UpdateHandoff.of_words
    UpdateHandoff.finalize UpdateHandoff.calculate_crc UpdateHandoff.Image.seal
    DownloadCheckpoint.validate DownloadCheckpoint.decode DownloadCheckpoint.encode
    DownloadCheckpoint.of_words DownloadCheckpoint.finalize DownloadCheckpoint.calculate_crc
    DownloadCheckpoint.Image.seal init_session init_idle DownloadCheckpoint.session_fields_valid
run_code = tt

handoff_commits : (commit handoff_kind nor_ram checkpoint_kind (some request) device).status ≡ ok
unfolding run_code
handoff_commits = refl

abbrev committed : ℕ → ℕ
committed = (commit handoff_kind nor_ram checkpoint_kind (some request) device).device

handoff_reads : (load handoff_kind nor_ram committed).status ≢ read_failed
unfolding run_code
handoff_reads e = cc

request-IsRecord : UpdateHandoff.Image.IsRecord request
unfolding UpdateHandoff.init
request-IsRecord = omega arith

store_commit-load_example :
    let written =
      candidate_on handoff_kind checkpoint_kind nor_ram nor_ram-NorLaws handoff_laws checkpoint_laws
        handoff-checkpoint-AreApart request device in
    let done = commit handoff_kind nor_ram checkpoint_kind (some request) device in
    (done.found ≡ some written)
    × ((load handoff_kind nor_ram done.device).status ≡ ok)
    × ((load handoff_kind nor_ram done.device).found ≡ some written)
    × ((load handoff_kind nor_ram done.device).slot ≡ done.slot)
store_commit-load_example =
    store_commit-load handoff_kind checkpoint_kind nor_ram nor_ram-NorLaws handoff_laws
      checkpoint_laws handoff-checkpoint-AreApart request device request-IsRecord handoff_commits
      handoff_reads

commit-load_other_example :
    let after = load checkpoint_kind nor_ram committed in
    let before = load checkpoint_kind nor_ram device in
    (after.status ≡ before.status) × (after.found ≡ before.found) × (after.slot ≡ before.slot)
commit-load_other_example =
    commit-load_other handoff_kind checkpoint_kind nor_ram nor_ram-NorLaws handoff_laws
      checkpoint_laws handoff-checkpoint-AreApart request device nor_ram-IsReadable handoff_commits

clear_succeeds : (RecordStorage.Checkpoint.clear nor_ram device).status ≡ ok
unfolding RecordStorage.Checkpoint.clear run_code
clear_succeeds = refl

clear_reads :
    (RecordStorage.Checkpoint.load nor_ram
      (RecordStorage.Checkpoint.clear nor_ram device).device).status
    ≢ read_failed
unfolding RecordStorage.Checkpoint.clear RecordStorage.Checkpoint.load run_code
clear_reads e = cc
