-- ===== src/Rollback/Tests.antt =====
-- A rollback of the whole application region in memory.
use secure_delta_ota_bootloa.Base.{◌≡◌, refl, arith}
use secure_delta_ota_bootloa.Base.Range.{read_range}
use secure_delta_ota_bootloa.Memory.{application_max_size}
use secure_delta_ota_bootloa.BootMetadata.{BootMetadata, code, rollback}
use secure_delta_ota_bootloa.BootMetadata.Image.{IsRecord}
use secure_delta_ota_bootloa.MetadataStorage.Ram.{ram, ram_laws, ram-IsHealthy}
use secure_delta_ota_bootloa.NorFlash.Ram.{nor_ram, nor_ram-NorLaws, nor_ram-IsReadable}
use secure_delta_ota_bootloa.Rollback.{ok, Board, resume_rollback_copy}
use secure_delta_ota_bootloa.Rollback.Healthy.{IsRollingBack}
use secure_delta_ota_bootloa.Rollback.Complete.{rollback_completes}
use secure_delta_ota_bootloa.Rollback.Restore.{
  application_bytes, backup_bytes, rollback_checkpoint, rollback_restores,
}

abbrev board : Board ram nor_ram
board = record { internal = λ a. 0x55; external = λ a. a }

abbrev request : BootMetadata
request = record {
  magic = 0;
  generation = 4;
  metadata_version = 0;
  state = code rollback;
  active_version = 1;
  pending_version = 2;
  active_update_id = 9;
  received_size = 0x4000;
  expected_size = 0x4000;
  copy_offset = 0;
  boot_attempts = 3;
  last_error = 0x00080001;
  crc32 = 0;
}

request-IsRecord : IsRecord request
request-IsRecord = omega arith

request-IsRollingBack : IsRollingBack request
request-IsRollingBack = record {
  rolling = refl;
  payload = omega arith;
  bounded = omega arith;
  pending = omega arith;
  attempts = omega arith;
}

nothing_restored :
    application_bytes ram ram_laws nor_ram nor_ram-NorLaws 0 board
    ≡ backup_bytes ram ram_laws nor_ram nor_ram-NorLaws 0 board
unfolding read_range
nothing_restored = refl

rollback_checkpoint_example :
    let result = resume_rollback_copy ram nor_ram request board in
    (application_bytes ram ram_laws nor_ram nor_ram-NorLaws result.metadata.copy_offset result.board
      ≡ backup_bytes ram ram_laws nor_ram nor_ram-NorLaws result.metadata.copy_offset board)
    × (backup_bytes ram ram_laws nor_ram nor_ram-NorLaws application_max_size result.board
        ≡ backup_bytes ram ram_laws nor_ram nor_ram-NorLaws application_max_size board)
rollback_checkpoint_example =
    rollback_checkpoint ram ram_laws nor_ram nor_ram-NorLaws request board request-IsRecord
      nothing_restored

completes : (resume_rollback_copy ram nor_ram request board).status ≡ ok
completes =
    rollback_completes ram ram_laws ram-IsHealthy nor_ram nor_ram-NorLaws nor_ram-IsReadable 0
      request board request-IsRecord request-IsRollingBack refl (omega arith)

rollback_restores_example :
    let result = resume_rollback_copy ram nor_ram request board in
    (result.metadata.copy_offset ≡ application_max_size)
    × (application_bytes ram ram_laws nor_ram nor_ram-NorLaws application_max_size result.board
        ≡ backup_bytes ram ram_laws nor_ram nor_ram-NorLaws application_max_size board)
rollback_restores_example =
    rollback_restores ram ram_laws nor_ram nor_ram-NorLaws request board request-IsRecord
      nothing_restored completes
