-- ===== src/ExternalStorage.antt =====
-- node-stm32f103/common/storage/external_flash_storage.c: partitions of the external flash.
pub mod Frame
pub mod Erase
pub mod Isolation
pub mod Split
mod Tests
use secure_delta_ota_bootloa.Base.{
  ℕ, zero, suc, ◌+◌, ◌-◌, ◌/◌, Bool, true, false, not, ◌&&◌, ◌||◌, Option, none, some, List,
  bit_and, ◌==◌, ◌!=◌, if◌then◌else◌, length,
}
use secure_delta_ota_bootloa.Base.Bytes.{u32}
use secure_delta_ota_bootloa.Memory.{
  ext_flash_sector_size, ext_metadata_a_address, ext_metadata_b_address, ext_incoming_address,
  ext_incoming_size, ext_reconstructed_address, ext_reconstructed_size, ext_backup_address,
  ext_backup_size, ext_log_address, ext_log_size, ext_self_test_address,
}
use secure_delta_ota_bootloa.ExtFlash.{is_range_valid, is_sector_aligned}
use secure_delta_ota_bootloa.NorFlash.{NorFlash}

-- `partition_count` is the enumeration's last value, which is no partition.
pub data Partition : Type 0 where
  metadata_a metadata_b incoming reconstructed backup log self_test partition_count : Partition

pub record PartitionInfo : Type 0 where
  pub address : ℕ
  pub size : ℕ

unfoldable pub get_partition : Partition → Option PartitionInfo
get_partition metadata_a =
    some (record { address = ext_metadata_a_address; size = ext_flash_sector_size })
get_partition metadata_b =
    some (record { address = ext_metadata_b_address; size = ext_flash_sector_size })
get_partition incoming = some (record { address = ext_incoming_address; size = ext_incoming_size })
get_partition reconstructed =
    some (record { address = ext_reconstructed_address; size = ext_reconstructed_size })
get_partition backup = some (record { address = ext_backup_address; size = ext_backup_size })
get_partition log = some (record { address = ext_log_address; size = ext_log_size })
get_partition self_test =
    some (record { address = ext_self_test_address; size = ext_flash_sector_size })
get_partition partition_count = none

abbrev resolve_in : Option PartitionInfo → ℕ → ℕ → Option ℕ
resolve_in none offset length = none
resolve_in (some info) offset length =
    if not (is_range_valid info.size offset length)
    then none
    else some (u32 (info.address + offset))

unfoldable pub resolve_range : Partition → ℕ → ℕ → Option ℕ
unfolding get_partition
resolve_range partition offset length = resolve_in (get_partition partition) offset length

module _ (nor : NorFlash) where
  open nor use {Device}

  unfoldable pub init : Device → Bool × Device
  init d = nor.init d

  abbrev pub read_at : Option ℕ → ℕ → Device → Option (List ℕ) × Device
  read_at none length d = (none, d)
  read_at (some address) length d = nor.read address length d

  unfoldable pub read : Partition → ℕ → ℕ → Device → Option (List ℕ) × Device
  read partition offset length d = read_at (resolve_range partition offset length) length d

  abbrev pub write_at : Option ℕ → List ℕ → Device → Bool × Device
  write_at none data' d = (false, d)
  write_at (some address) data' d = nor.write address data' d

  unfoldable pub write : Partition → ℕ → List ℕ → Device → Bool × Device
  write partition offset data' d = write_at (resolve_range partition offset (length data')) data' d

  abbrev pub verify_at : Option ℕ → List ℕ → Device → Bool × Device
  verify_at none data' d = (false, d)
  verify_at (some address) data' d = nor.verify address data' d

  unfoldable pub verify : Partition → ℕ → List ℕ → Device → Bool × Device
  verify partition offset data' d =
      verify_at (resolve_range partition offset (length data')) data' d

  abbrev pub is_erased_at : Option ℕ → ℕ → Device → Bool × Device
  is_erased_at none length d = (false, d)
  is_erased_at (some address) length d = nor.is_erased address length d

  unfoldable pub is_erased : Partition → ℕ → ℕ → Device → Bool × Device
  is_erased partition offset length d =
      is_erased_at (resolve_range partition offset length) length d

  -- The loops of both erase functions, by the sectors left; the first failure ends them.
  unfoldable pub erase_sectors : ℕ → ℕ → Device → Bool × Device
  erase_sectors zero address d = (true, d)
  erase_sectors (suc sectors) address d =
      let erased = nor.erase_sector address d in
      let rest = erase_sectors sectors (address + ext_flash_sector_size) erased.1 in
      if not erased.0 then (false, erased.1) else rest

  abbrev erase_range_in : Option PartitionInfo → ℕ → ℕ → Device → Bool × Device
  erase_range_in none offset length d = (false, d)
  erase_range_in (some info) offset length d =
      let address = u32 (info.address + offset) in
      let erased = erase_sectors (length / ext_flash_sector_size) address d in
      if length == 0
        || not (is_range_valid info.size offset length)
        || not (is_sector_aligned offset)
        || bit_and length (ext_flash_sector_size - 1) != 0
      then (false, d)
      else if not (is_sector_aligned address)
      then (false, d)
      else erased

  unfoldable pub erase_range : Partition → ℕ → ℕ → Device → Bool × Device
  unfolding erase_sectors
  erase_range partition offset length d = erase_range_in (get_partition partition) offset length d

  abbrev erase_partition_in : Option PartitionInfo → Device → Bool × Device
  erase_partition_in none d = (false, d)
  erase_partition_in (some info) d =
      let erased = erase_sectors (info.size / ext_flash_sector_size) info.address d in
      if not (is_sector_aligned info.address) || bit_and info.size (ext_flash_sector_size - 1) != 0
      then (false, d)
      else erased

  unfoldable pub erase_partition : Partition → Device → Bool × Device
  unfolding erase_sectors
  erase_partition partition d = erase_partition_in (get_partition partition) d
