-- ===== src/BackupStorage/Tests.antt =====
-- The backup of version 7 in an external flash.
use secure_delta_ota_bootloa.Base.{ℕ, ◌≡◌, ◌≢◌, [], ◌∷◌, some, true, inr, refl, arith, List, length}
use secure_delta_ota_bootloa.Base.Image.{bytes_of_words, words_of_bytes}
use secure_delta_ota_bootloa.Base.Bytes.{put_u32_le, le16, le32}
use secure_delta_ota_bootloa.Base.Range.{read_range, bytes_equal}
use secure_delta_ota_bootloa.Memory.{ext_backup_address, ext_flash_sector_size}
use secure_delta_ota_bootloa.Crc32.{calculate, update, shift_bits, shift_bit}
use secure_delta_ota_bootloa.ExtFlash.{is_range_valid, is_sector_aligned}
use secure_delta_ota_bootloa.NorFlash.{OutsideRange}
use secure_delta_ota_bootloa.NorFlash.Ram.{nor_ram, nor_ram-NorLaws, store}
use secure_delta_ota_bootloa.ExternalStorage.{
  read, write, resolve_range, get_partition, erase_range, erase_sectors,
}
use secure_delta_ota_bootloa.BackupImage.{
  BackupImage, init, encode, decode, of_words, finalize, validate, calculate_crc,
}
use secure_delta_ota_bootloa.BackupImage.Image.{IsRecord}
use secure_delta_ota_bootloa.BackupStorage.{
  ok, read_failed, commit_header, write_header, invalidate_header, load_header, write_image,
  read_image, erase_image_sector, image_range_valid,
}
use secure_delta_ota_bootloa.BackupStorage.Frame.{header_image_apart, IsHeaderAddress}
use secure_delta_ota_bootloa.BackupStorage.Header.{commit_header-load}

abbrev device : ℕ → ℕ
device a = 0xFF

abbrev request : BackupImage
request = init 7 0x1234

request-IsRecord : IsRecord request
unfolding init
request-IsRecord = omega arith

-- What the storage computes with.
unfoldable run_code : Unit {0}
unfolding commit_header write_header invalidate_header load_header write_image read_image
    image_range_valid read write resolve_range get_partition erase_range erase_sectors
    is_range_valid is_sector_aligned store read_range bytes_equal bytes_of_words words_of_bytes le16
    le32 put_u32_le calculate update shift_bits shift_bit init encode decode of_words finalize
    validate calculate_crc
run_code = tt

header_commits : (commit_header nor_ram (some request) device).status ≡ ok
unfolding run_code
header_commits = refl

header_reads :
    (load_header nor_ram (commit_header nor_ram (some request) device).device).status ≢ read_failed
unfolding run_code
header_reads e = cc

commit_header-load_example :
    let done = commit_header nor_ram (some request) device in
    (done.found ≡ some (finalize request))
    × ((load_header nor_ram done.device).status ≡ ok)
    × ((load_header nor_ram done.device).found ≡ some (finalize request))
commit_header-load_example =
    commit_header-load nor_ram nor_ram-NorLaws request device request-IsRecord header_commits
      header_reads

abbrev page : List ℕ
page = 1 ∷ 2 ∷ 3 ∷ []

page_written : (write_image nor_ram 0x800 page device).0 ≡ true
unfolding run_code
page_written = refl

page_read :
    (read_image nor_ram 0x800 (length page) (write_image nor_ram 0x800 page device).1).0 ≡ some page
unfolding run_code
page_read = refl

outside : OutsideRange ext_backup_address ext_flash_sector_size 0x43000
outside = inr (omega arith)

header_address : IsHeaderAddress 0x42FFF
header_address = omega arith

header_image_apart_example :
    (nor_ram.memory (commit_header nor_ram (some request) device).device 0x43000
      ≡ nor_ram.memory device 0x43000)
    × (nor_ram.memory (invalidate_header nor_ram device).1 0x43000 ≡ nor_ram.memory device 0x43000)
    × (nor_ram.memory (write_image nor_ram 0 page device).1 0x42FFF ≡ nor_ram.memory device 0x42FFF)
    × (nor_ram.memory (erase_image_sector nor_ram 0 device).1 0x42FFF
        ≡ nor_ram.memory device 0x42FFF)
header_image_apart_example =
    header_image_apart nor_ram nor_ram-NorLaws (some request) 0 page device 0x43000 0x42FFF outside
      header_address
