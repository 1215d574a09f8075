-- ===== src/RollbackProcess/Tests.antt =====
-- A rollback with an erased external flash, and one of a whole image.
use secure_delta_ota_bootloa.Base.{◌≡◌, ◌≢◌, true, refl, some, inl}
use secure_delta_ota_bootloa.Base.Image.{words_of_bytes}
use secure_delta_ota_bootloa.Base.Range.{read_range}
use secure_delta_ota_bootloa.BootMetadata.{init}
use secure_delta_ota_bootloa.BackupImage.{decode, of_words, validate}
use secure_delta_ota_bootloa.MetadataStorage.Ram.{ram, ram_laws, ram-IsHealthy}
use secure_delta_ota_bootloa.NorFlash.Ram.{nor_ram, nor_ram-NorLaws, nor_ram-IsReadable, store}
use secure_delta_ota_bootloa.ExtFlash.{is_range_valid}
use secure_delta_ota_bootloa.ExternalStorage
use secure_delta_ota_bootloa.ExternalStorage.{read, resolve_range, get_partition}
use secure_delta_ota_bootloa.BackupStorage.{load_header}
use secure_delta_ota_bootloa.InstallerCrc.{accepted, validate_backup}
use secure_delta_ota_bootloa.Rollback
use secure_delta_ota_bootloa.Rollback.{Board, ok}
use secure_delta_ota_bootloa.RollbackProcess.{process_rollback, copy_and_finish}
use secure_delta_ota_bootloa.RollbackProcess.Success.{copy_and_finish-ok}
use secure_delta_ota_bootloa.RollbackProcess.Complete.{copy_and_finish_succeeds, HasValidVector}
use secure_delta_ota_bootloa.Rollback.Healthy.{IsRollingBack}
use secure_delta_ota_bootloa.Rollback.Restore.{application_bytes, backup_bytes}
use secure_delta_ota_bootloa.BackupStorage.Frame.{image_start}
use secure_delta_ota_bootloa.Base.{[], ◌∷◌, arith}
use secure_delta_ota_bootloa.Base.Bytes.{get_u32_le, le32}
use secure_delta_ota_bootloa.Crc32.{calculate}
use secure_delta_ota_bootloa.FullImage.{validate_vector}
use secure_delta_ota_bootloa.ApplicationJump
use secure_delta_ota_bootloa.ApplicationJump.{application_ok}
use secure_delta_ota_bootloa.Memory.{application_max_size, application_start_address}
use secure_delta_ota_bootloa.BackupImage
use secure_delta_ota_bootloa.BackupImage.{BackupImage}
use secure_delta_ota_bootloa.RollbackProcess.Begin.{HasUpdate}
use secure_delta_ota_bootloa.RollbackProcess.Succeeds.{process_rollback_succeeds}
use secure_delta_ota_bootloa.Base.Bytes.{put_u32_le}
use secure_delta_ota_bootloa.Base.Image.{bytes_of_words}
use secure_delta_ota_bootloa.BackupStorage.{read_image, image_range_valid}
use secure_delta_ota_bootloa.InstallerCrc.{backup_crc_loop, calculate_backup_crc}
use secure_delta_ota_bootloa.Memory.{ext_backup_address}
use secure_delta_ota_bootloa.Crc32.{update, shift_bits, shift_bit}
use secure_delta_ota_bootloa.BootMetadata.{trial_boot}
use secure_delta_ota_bootloa.BootMetadata.{BootMetadata, code, rollback}
use secure_delta_ota_bootloa.BootMetadata.Image.{IsRecord}
use secure_delta_ota_bootloa.RollbackProcess.Refused.{region, rollback_refused}

abbrev board : Board ram nor_ram
board = record { internal = λ a. 0x55; external = λ a. 0xFF }

ready : (ExternalStorage.init nor_ram board.external).0 ≡ true
unfolding ExternalStorage.init
ready = refl

no_backup : (validate_backup nor_ram (ExternalStorage.init nor_ram board.external).1).0 ≢ accepted
unfolding ExternalStorage.init validate_backup load_header read resolve_range get_partition
    is_range_valid read_range decode of_words words_of_bytes validate
no_backup e = cc

rollback_refused_example :
    let result = process_rollback ram nor_ram (init 1) board in
    (result.status ≡ Rollback.rollback_source_invalid)
    × (region ram ram_laws nor_ram result.board.internal
        ≡ region ram ram_laws nor_ram board.internal)
rollback_refused_example = rollback_refused ram ram_laws nor_ram (init 1) board ready no_backup

-- The image of this backup begins with a stack pointer and a reset handler.
abbrev backed_up : Board ram nor_ram
backed_up = record {
  internal = λ a. 0x55;
  external =
      store image_start (0x00 ∷ 0x50 ∷ 0x00 ∷ 0x20 ∷ 0x01 ∷ 0x61 ∷ 0x00 ∷ 0x08 ∷ []) (λ a. a);
}

abbrev header : BackupImage
header = record {
  magic = BackupImage.backup_magic;
  format_version = BackupImage.backup_format_version;
  active_version = 1;
  image_size = application_max_size;
  image_crc32 =
      calculate (backup_bytes ram ram_laws nor_ram nor_ram-NorLaws application_max_size backed_up);
  load_address = application_start_address;
  crc32 = 0;
}

abbrev rolling : BootMetadata
rolling = record {
  magic = 0;
  generation = 4;
  metadata_version = 0;
  state = code rollback;
  active_version = 1;
  pending_version = 2;
  active_update_id = 9;
  received_size = 0x4000;
  expected_size = 0x4000;
  copy_offset = 0;
  boot_attempts = 3;
  last_error = 0x0008B003;
  crc32 = 0;
}

rolling-IsRecord : IsRecord rolling
rolling-IsRecord = omega arith

rolling-IsRollingBack : IsRollingBack rolling
rolling-IsRollingBack = record {
  rolling = refl;
  payload = omega arith;
  bounded = omega arith;
  pending = omega arith;
  attempts = omega arith;
}

nothing_restored :
    application_bytes ram ram_laws nor_ram nor_ram-NorLaws 0 backed_up
    ≡ backup_bytes ram ram_laws nor_ram nor_ram-NorLaws 0 backed_up
unfolding read_range
nothing_restored = refl

valid_vector :
    HasValidVector ram ram_laws ram-IsHealthy nor_ram nor_ram-NorLaws nor_ram-IsReadable backed_up
unfolding read_range store get_u32_le le32 validate_vector
valid_vector = refl

succeeds : (copy_and_finish ram nor_ram 0x0008B003 header rolling backed_up).status ≡ ok
succeeds =
    copy_and_finish_succeeds ram ram_laws ram-IsHealthy nor_ram nor_ram-NorLaws nor_ram-IsReadable 0
      0x0008B003 header rolling backed_up rolling-IsRecord rolling-IsRollingBack refl (omega arith)
      nothing_restored (omega arith) (omega arith) refl valid_vector

copy_and_finish-ok_example :
    let result = copy_and_finish ram nor_ram 0x0008B003 header rolling backed_up in
    (application_bytes ram ram_laws nor_ram nor_ram-NorLaws application_max_size result.board
      ≡ backup_bytes ram ram_laws nor_ram nor_ram-NorLaws application_max_size backed_up)
    × (ApplicationJump.validate application_start_address (ram.read result.board.internal)
        ≡ application_ok)
copy_and_finish-ok_example =
    copy_and_finish-ok ram ram_laws nor_ram nor_ram-NorLaws 0x0008B003 header rolling backed_up
      rolling-IsRecord nothing_restored succeeds

-- A flash with a whole backup of version 1: its header, and an image with a vector table.
abbrev stored : Board ram nor_ram
stored = record {
  internal = λ a. 0x55;
  external =
      store ext_backup_address
        (66 ∷ 75 ∷ 80 ∷ 56 ∷ 1 ∷ 0 ∷ 0 ∷ 0 ∷ 1 ∷ 0 ∷ 0 ∷ 0 ∷ 0 ∷ 152 ∷ 0 ∷ 0 ∷ 216 ∷ 130 ∷ 86 ∷ 5
          ∷ 0 ∷ 96 ∷ 0 ∷ 8 ∷ 73 ∷ 195 ∷ 70 ∷ 131 ∷ [])
        (store image_start (0x00 ∷ 0x50 ∷ 0x00 ∷ 0x20 ∷ 0x01 ∷ 0x61 ∷ 0x00 ∷ 0x08 ∷ []) (λ a. a));
}

abbrev stored_header : BackupImage
stored_header = record {
  magic = BackupImage.backup_magic;
  format_version = BackupImage.backup_format_version;
  active_version = 1;
  image_size = application_max_size;
  image_crc32 = 0x055682D8;
  load_address = application_start_address;
  crc32 = 0x8346C349;
}

stored_code : Unit {0}
unfolding ExternalStorage.init validate_backup load_header read resolve_range get_partition
    is_range_valid read_range decode of_words words_of_bytes validate calculate update shift_bits
    shift_bit store get_u32_le le32 validate_vector backup_crc_loop calculate_backup_crc
    BackupImage.calculate_crc BackupImage.encode bytes_of_words put_u32_le read_image
    image_range_valid
stored_code = tt

stored_ready : (ExternalStorage.init nor_ram stored.external).0 ≡ true
unfolding stored_code
stored_ready = refl

stored_accepted :
    (validate_backup nor_ram (ExternalStorage.init nor_ram stored.external).1).0 ≡ accepted
unfolding stored_code
stored_accepted = refl

stored_found :
    (validate_backup nor_ram (ExternalStorage.init nor_ram stored.external).1).1
    ≡ some stored_header
unfolding stored_code
stored_found = refl

stored_vector :
    HasValidVector ram ram_laws ram-IsHealthy nor_ram nor_ram-NorLaws nor_ram-IsReadable stored
unfolding stored_code
stored_vector = refl

-- The third trial has failed.
abbrev failing : BootMetadata
failing = record rolling { state = code trial_boot }

failing-HasUpdate : HasUpdate failing
failing-HasUpdate = record {
  payload = omega arith;
  bounded = omega arith;
  pending = omega arith;
  attempts = omega arith;
}

process_rollback_succeeds_example :
    let result = process_rollback ram nor_ram failing stored in
    (result.status ≡ ok)
    × (application_bytes ram ram_laws nor_ram nor_ram-NorLaws application_max_size result.board
        ≡ backup_bytes ram ram_laws nor_ram nor_ram-NorLaws application_max_size stored)
    × (ApplicationJump.validate application_start_address (ram.read result.board.internal)
        ≡ application_ok)
process_rollback_succeeds_example =
    process_rollback_succeeds ram ram_laws ram-IsHealthy nor_ram nor_ram-NorLaws nor_ram-IsReadable
      0 stored_header failing stored (omega arith) failing-HasUpdate (inl (omega arith))
      stored_ready stored_accepted stored_found (omega arith) stored_vector
