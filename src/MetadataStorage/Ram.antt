-- ===== src/MetadataStorage/Ram.antt =====
-- A flash in memory that meets the laws of `FlashLaws`, and what a run of the storage computes with.
use secure_delta_ota_bootloa.Base.{
  ℕ, ◌+◌, ◌/◌, ◌%◌, refl, ◌&&◌, arith, leb, ltb, ◌==◌, if◌then◌else◌, get_or, ◌-◌,
}
use secure_delta_ota_bootloa.Base.Bytes.{put_u32_le, le16, le32}
use secure_delta_ota_bootloa.Base.Range.{read_range, bytes_equal}
use secure_delta_ota_bootloa.Base.Image.{bytes_of_words, words_of_bytes}
use secure_delta_ota_bootloa.Crc32.{calculate, update, shift_bits, shift_bit}
use secure_delta_ota_bootloa.Slots.{
  select_newest, select_write, is_generation_newer, next_generation,
}
use secure_delta_ota_bootloa.BootMetadata.{
  BootMetadata, init, finalize, encode, validate, decode, of_words, state_is_valid,
  state_fields_are_consistent, fields_of_state, update_payload_is_complete, calculate_crc,
  select_newest_slot, select_write_slot,
}
use secure_delta_ota_bootloa.Flash.{Flash, FlashLaws, complete, page_size}
use secure_delta_ota_bootloa.MetadataStorage.{
  load, commit, candidate, target_slot, program_slot, program_bytes, verify_written, records_equal,
  copy_from_flash, slot_address, generation_of,
}
use secure_delta_ota_bootloa.MetadataStorage.Healthy.{IsHealthy}

-- A byte device: every call completes.
abbrev pub ram : Flash
ram = record {
  Device = ℕ → ℕ;
  read = λ d a. d a % 256;
  erase_page =
      λ page d. (complete, λ a. if leb page a && ltb a (page + page_size) then 0xFF else d a);
  program_half_word =
      λ p v d. (complete, λ a. if a == p then v % 256 else if a == p + 1 then v / 256 else d a);
}

pub ram_laws : FlashLaws ram
ram_laws = record {
  read_byte = λ d a. omega arith;
  erase_frame = λ page a d out. ground arith;
  erase_blank = λ page a d done lo hi. ground arith;
  program_frame = λ p v a d ne ne'. ground arith;
  program_value = λ p v d done blank blank' word. ground arith;
}

abbrev blank : ℕ → ℕ
blank a = 0xFF

pub ram-IsHealthy : IsHealthy ram
ram-IsHealthy = record { erase_completes = λ page d. refl; program_completes = λ p v d. refl }

-- A device with a record in slot A and nothing else.
abbrev pub holding : BootMetadata → ℕ → ℕ
holding m a =
    if leb 0x0800F800 a && ltb a (0x0800F800 + 52)
    then get_or (encode m) (a - 0x0800F800) 0
    else 0xFF

-- What a run of the storage computes with.
unfoldable pub storage_code : Unit {0}
unfolding commit candidate target_slot program_slot program_bytes verify_written records_equal
    bytes_equal copy_from_flash read_range slot_address generation_of load init finalize validate
    encode decode of_words bytes_of_words words_of_bytes put_u32_le le16 le32 state_is_valid
    state_fields_are_consistent fields_of_state update_payload_is_complete calculate_crc calculate
    update shift_bits shift_bit select_newest_slot select_write_slot select_newest select_write
    is_generation_newer next_generation
storage_code = tt
