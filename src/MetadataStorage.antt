-- ===== src/MetadataStorage.antt =====
-- node-stm32f103/bootloader/storage/metadata_storage.c: the two metadata pages of the internal
-- flash. The interrupt mask and the flash lock around the programming calls are not modelled.
pub mod Frame
pub mod Newest
pub mod Commit
pub mod PowerLoss
pub mod Healthy
pub mod Ram
mod Tests
use secure_delta_ota_bootloa.Base.{
  ℕ, ◌+◌, ◌==◌, ◌!=◌, ltb, Bool, true, false, not, ◌&&◌, ◌||◌, Option, none, some, List, [], ◌∷◌,
  if◌then◌else◌, zero, suc,
}
use secure_delta_ota_bootloa.Base.Bytes.{le16}
use secure_delta_ota_bootloa.Base.Range.{read_range, bytes_equal}
use secure_delta_ota_bootloa.Memory.{boot_metadata_a_address, boot_metadata_b_address}
use secure_delta_ota_bootloa.Slots.{Slot, slot_none, slot_a, slot_b, next_generation}
use secure_delta_ota_bootloa.BootMetadata.{
  BootMetadata, ValidationStatus, encode, decode, init, finalize, validate, is_valid_status,
  invalid_argument, select_newest_slot, select_write_slot,
}
use secure_delta_ota_bootloa.Flash.{Flash, FlashStatus, is_complete}

pub data StorageStatus : Type 0 where
  ok defaults_used bad_argument erase_failed program_failed verify_failed : StorageStatus

abbrev pub is_ok : StorageStatus → Bool
is_ok ok = true
is_ok _ = false

unfoldable pub slot_address : Slot → ℕ
slot_address slot_a = boot_metadata_a_address
slot_address slot_b = boot_metadata_b_address
slot_address slot_none = 0

abbrev pub record_size : ℕ
record_size = 52

unfoldable pub records_equal : BootMetadata → BootMetadata → Bool
unfolding bytes_equal
records_equal left right = bytes_equal (encode left) (encode right)

-- The generation of the slot that a commit supersedes, 0 if there is none.
unfoldable pub generation_of : Slot → BootMetadata → BootMetadata → ℕ
generation_of slot_a a b = a.generation
generation_of slot_b a b = b.generation
generation_of slot_none a b = 0

pub record LoadResult : Type 0 where
  pub status : StorageStatus
  pub metadata : BootMetadata
  pub active_slot : Slot

-- The record of the newest slot, or the defaults.
abbrev pub chosen : Slot → BootMetadata → BootMetadata → BootMetadata → LoadResult
chosen slot_a a b defaults = record { status = ok; metadata = a; active_slot = slot_a }
chosen slot_b a b defaults = record { status = ok; metadata = b; active_slot = slot_b }
chosen slot_none a b defaults = record {
  status = defaults_used;
  metadata = defaults;
  active_slot = slot_none;
}

-- What a commit leaves: its status, the two results that it writes on success, and the device.
pub record CommitResult (Device : Type 0) : Type 0 where
  pub status : StorageStatus
  pub committed : Option BootMetadata
  pub written_slot : Slot
  pub device : Device

abbrev pub refused : {Device : Type 0} → StorageStatus → Device → CommitResult Device
refused s d = record { status = s; committed = none; written_slot = slot_none; device = d }

module _ (flash : Flash) where
  open flash use {Device, read, erase_page, program_half_word}

  unfoldable pub copy_from_flash : Device → ℕ → BootMetadata
  unfolding read_range
  copy_from_flash d address = decode (read_range (read d) address record_size)

  unfoldable pub read_slot : Slot → Device → ValidationStatus × Option BootMetadata
  unfolding slot_address copy_from_flash
  read_slot slot d =
      let address = slot_address slot in
      if address == 0
      then (invalid_argument, none)
      else (validate (some (copy_from_flash d address)), some (copy_from_flash d address))

  unfoldable pub load : ℕ → Device → LoadResult
  unfolding copy_from_flash
  load application_version d =
      let a = copy_from_flash d boot_metadata_a_address in
      let b = copy_from_flash d boot_metadata_b_address in
      chosen (select_newest_slot (some a) (some b)) a b (init application_version)

  -- The programming loop, two bytes a round, stopped by the first call that does not complete.
  unfoldable pub program_bytes : ℕ → List ℕ → Device → StorageStatus × Device
  program_bytes address (low ∷ high ∷ rest) d =
      let step = program_half_word address (le16 low high) d in
      let continued = program_bytes (address + 2) rest step.1 in
      if is_complete step.0 then continued else (program_failed, step.1)
  program_bytes address _ d = (ok, d)

  unfoldable pub program_slot : Slot → BootMetadata → Device → StorageStatus × Device
  unfolding slot_address program_bytes
  program_slot slot metadata d =
      let address = slot_address slot in
      if address == 0 || (address != boot_metadata_a_address && address != boot_metadata_b_address)
      then (bad_argument, d)
      else let erased = erase_page address d in
        if not (is_complete erased.0)
        then (erase_failed, erased.1)
        else program_bytes address (encode metadata) erased.1

  -- The record that a commit writes: the requested one, sealed under the next generation.
  unfoldable pub candidate : BootMetadata → Device → BootMetadata
  unfolding copy_from_flash generation_of
  candidate requested d =
      let a = copy_from_flash d boot_metadata_a_address in
      let b = copy_from_flash d boot_metadata_b_address in
      let current_slot = select_newest_slot (some a) (some b) in
      finalize (record requested { generation = next_generation (generation_of current_slot a b) })

  unfoldable pub target_slot : Device → Slot
  unfolding copy_from_flash
  target_slot d =
      select_write_slot (some (copy_from_flash d boot_metadata_a_address))
        (some (copy_from_flash d boot_metadata_b_address))

  -- Reading the slot back after programming.
  unfoldable pub verify_written : Slot → BootMetadata → Device → CommitResult Device
  unfolding slot_address copy_from_flash records_equal
  verify_written slot written d =
      let verification = copy_from_flash d (slot_address slot) in
      if not (is_valid_status (validate (some verification)))
        || not (records_equal written verification)
      then refused verify_failed d
      else record { status = ok; committed = some verification; written_slot = slot; device = d }

  unfoldable pub commit : Option BootMetadata → Device → CommitResult Device
  commit none d = refused bad_argument d
  commit (some requested) d =
      let record_to_write = candidate requested d in
      let slot = target_slot d in
      let programmed = program_slot slot record_to_write d in
      if not (is_valid_status (validate (some record_to_write)))
      then refused bad_argument d
      else if not (is_ok programmed.0)
      then refused programmed.0 programmed.1
      else verify_written slot record_to_write programmed.1
