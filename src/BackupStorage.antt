-- ===== src/BackupStorage.antt =====
-- node-stm32f103/common/storage/backup_image_storage.c: the backup of the active application in the
-- external flash, a header in its own sector and the image after it.
pub mod Frame
pub mod Header
mod Tests
use secure_delta_ota_bootloa.Base.{
  ℕ, ◌+◌, ◌-◌, Bool, true, false, not, ◌||◌, Option, none, some, List, length, take, drop, bit_and,
  ltb, leb, ◌!=◌, if◌then◌else◌,
}
use secure_delta_ota_bootloa.Base.Range.{bytes_equal}
use secure_delta_ota_bootloa.Memory.{application_max_size, ext_flash_sector_size}
use secure_delta_ota_bootloa.BackupImage.{
  BackupImage, encode, decode, finalize, validate, is_valid_status, crc_offset, data_offset,
}
use secure_delta_ota_bootloa.NorFlash.{NorFlash}
use secure_delta_ota_bootloa.ExternalStorage
use secure_delta_ota_bootloa.ExternalStorage.{Partition, backup}

pub data BackupStatus : Type 0 where
  ok bad_argument not_found read_failed erase_failed write_failed verify_failed : BackupStatus

abbrev pub is_ok : BackupStatus → Bool
is_ok ok = true
is_ok _ = false

-- A status, the record that is handed back with it, and the device.
pub record HeaderResult (Device : Type 0) : Type 0 where
  pub status : BackupStatus
  pub found : Option BackupImage
  pub device : Device

unfoldable pub image_range_valid : ℕ → ℕ → Bool
image_range_valid offset length =
    if ltb application_max_size offset then false else leb length (application_max_size - offset)

abbrev pub header_size : ℕ
header_size = 28

module _ (nor : NorFlash) where
  open nor use {Device}

  abbrev pub failed : BackupStatus → Device → HeaderResult Device
  failed s d = record { status = s; found = none; device = d }

  abbrev pub loaded : Option (List ℕ) × Device → HeaderResult Device
  loaded (none, d) = failed read_failed d
  loaded (some bytes, d) =
      if not (is_valid_status (validate (some (decode bytes))))
      then failed not_found d
      else record { status = ok; found = some (decode bytes); device = d }

  unfoldable pub load_header : Device → HeaderResult Device
  load_header d = loaded (ExternalStorage.read nor backup 0 header_size d)

  unfoldable pub invalidate_header : Device → BackupStatus × Device
  invalidate_header d =
      let erased = ExternalStorage.erase_range nor backup 0 ext_flash_sector_size d in
      (if not erased.0 then erase_failed else ok, erased.1)

  abbrev pub verdict : BackupImage → Option (List ℕ) × Device → HeaderResult Device
  verdict candidate (none, d) = failed verify_failed d
  verdict candidate (some bytes, d) =
      let verification = decode bytes in
      if not (is_valid_status (validate (some verification)))
        || not (bytes_equal (encode candidate) (encode verification))
      then failed verify_failed d
      else record { status = ok; found = some verification; device = d }

  -- The header without its CRC, then the CRC, then the header is read back.
  unfoldable pub write_header : BackupImage → Device → HeaderResult Device
  write_header candidate d =
      let body = ExternalStorage.write nor backup 0 (take crc_offset (encode candidate)) d in
      let crc =
        ExternalStorage.write nor backup crc_offset (drop crc_offset (encode candidate)) body.1 in
      let verified = verdict candidate (ExternalStorage.read nor backup 0 header_size crc.1) in
      if not body.0
      then failed write_failed body.1
      else if not crc.0
      then failed write_failed crc.1
      else verified

  unfoldable pub commit_header : Option BackupImage → Device → HeaderResult Device
  unfolding invalidate_header write_header
  commit_header none d = failed bad_argument d
  commit_header (some requested) d =
      let candidate = finalize requested in
      let invalidated = invalidate_header d in
      let written = write_header candidate invalidated.1 in
      if not (is_valid_status (validate (some candidate)))
      then failed bad_argument d
      else if not (is_ok invalidated.0)
      then failed erase_failed invalidated.1
      else written

  unfoldable pub read_image : ℕ → ℕ → Device → Option (List ℕ) × Device
  unfolding image_range_valid
  read_image offset length d =
      let found = ExternalStorage.read nor backup (data_offset + offset) length d in
      if not (image_range_valid offset length) then (none, d) else found

  unfoldable pub write_image : ℕ → List ℕ → Device → Bool × Device
  unfolding image_range_valid
  write_image offset data' d =
      let written = ExternalStorage.write nor backup (data_offset + offset) data' d in
      if not (image_range_valid offset (length data')) then (false, d) else written

  unfoldable pub verify_image : ℕ → List ℕ → Device → Bool × Device
  unfolding image_range_valid
  verify_image offset data' d =
      let verified = ExternalStorage.verify nor backup (data_offset + offset) data' d in
      if not (image_range_valid offset (length data')) then (false, d) else verified

  unfoldable pub erase_image_sector : ℕ → Device → Bool × Device
  erase_image_sector image_offset d =
      let erased =
        ExternalStorage.erase_range nor backup (data_offset + image_offset) ext_flash_sector_size
          d in
      if leb application_max_size image_offset
        || bit_and image_offset (ext_flash_sector_size - 1) != 0
      then (false, d)
      else erased
