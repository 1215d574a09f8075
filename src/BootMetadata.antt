-- ===== src/BootMetadata.antt =====
-- shared/src/boot_metadata.c and shared/include/boot_metadata.h: the persistent record of the
-- update, its checks, and the choice between its two copies. A pointer that may be NULL is an
-- `Option`; a record that a function fills in place is its argument and its result.
pub mod Image
pub mod Checks
pub mod States
pub mod Corruption
mod Tests
use secure_delta_ota_bootloa.Base.{
  ℕ, zero, suc, ◌+◌, ◌-◌, Bool, true, false, not, ◌&&◌, ◌||◌, Option, none, some, List, [], ◌∷◌,
  bit_and, ltb, leb, ◌==◌, ◌!=◌, if◌then◌else◌, take, get_or,
}
use secure_delta_ota_bootloa.Base.Image.{bytes_of_words, words_of_bytes}
use secure_delta_ota_bootloa.Memory.{
  application_max_size, ext_flash_sector_size, internal_flash_page_size, ext_incoming_size,
}
use secure_delta_ota_bootloa.Crc32
use secure_delta_ota_bootloa.Slots.{Slot, slot_a, slot_b, slot_none, select_newest, select_write}

pub data UpdateState : Type 0 where
  idle receiving artifact_ready verifying_container verifying_base patching image_ready :
      UpdateState
  backing_up installing verifying_install trial_boot confirmed rollback failed : UpdateState

-- The value that the enumeration gives a state.
abbrev pub code : UpdateState → ℕ
code idle = 0
code receiving = 1
code artifact_ready = 2
code verifying_container = 3
code verifying_base = 4
code patching = 5
code image_ready = 6
code backing_up = 7
code installing = 8
code verifying_install = 9
code trial_boot = 10
code confirmed = 11
code rollback = 12
code failed = 13

-- The case of a `switch` on a stored word; `none` is the `default`.
abbrev pub state_of : ℕ → Option UpdateState
state_of n =
    if n == 0
    then some idle
    else if n == 1
    then some receiving
    else if n == 2
    then some artifact_ready
    else if n == 3
    then some verifying_container
    else if n == 4
    then some verifying_base
    else if n == 5
    then some patching
    else if n == 6
    then some image_ready
    else if n == 7
    then some backing_up
    else if n == 8
    then some installing
    else if n == 9
    then some verifying_install
    else if n == 10
    then some trial_boot
    else if n == 11
    then some confirmed
    else if n == 12
    then some rollback
    else if n == 13
    then some failed
    else none

pub record BootMetadata : Type 0 where
  pub magic : ℕ
  pub generation : ℕ
  pub metadata_version : ℕ
  pub state : ℕ
  pub active_version : ℕ
  pub pending_version : ℕ
  pub active_update_id : ℕ
  pub received_size : ℕ
  pub expected_size : ℕ
  pub copy_offset : ℕ
  pub boot_attempts : ℕ
  pub last_error : ℕ
  pub crc32 : ℕ

pub data ValidationStatus : Type 0 where
  valid invalid_argument invalid_magic invalid_version invalid_generation : ValidationStatus
  invalid_state invalid_progress invalid_state_fields invalid_crc : ValidationStatus

abbrev pub boot_metadata_magic : ℕ
boot_metadata_magic = 0x424D4554

abbrev pub format_version : ℕ
format_version = 1

abbrev pub max_boot_attempts : ℕ
max_boot_attempts = 3

-- The record's bytes in memory and in flash; the CRC is the last of its 13 words.
abbrev pub words : BootMetadata → List ℕ
words m =
    m.magic ∷ m.generation ∷ m.metadata_version ∷ m.state ∷ m.active_version ∷ m.pending_version
    ∷ m.active_update_id ∷ m.received_size ∷ m.expected_size ∷ m.copy_offset ∷ m.boot_attempts
    ∷ m.last_error ∷ m.crc32 ∷ []

unfoldable pub of_words : List ℕ → BootMetadata
of_words ws = record {
  magic = get_or ws 0 0;
  generation = get_or ws 1 0;
  metadata_version = get_or ws 2 0;
  state = get_or ws 3 0;
  active_version = get_or ws 4 0;
  pending_version = get_or ws 5 0;
  active_update_id = get_or ws 6 0;
  received_size = get_or ws 7 0;
  expected_size = get_or ws 8 0;
  copy_offset = get_or ws 9 0;
  boot_attempts = get_or ws 10 0;
  last_error = get_or ws 11 0;
  crc32 = get_or ws 12 0;
}

unfoldable pub encode : BootMetadata → List ℕ
encode m = bytes_of_words (words m)

unfoldable pub decode : List ℕ → BootMetadata
unfolding of_words
decode bytes = of_words (words_of_bytes bytes)

unfoldable pub state_is_valid : ℕ → Bool
state_is_valid state = leb state (code failed)

unfoldable pub update_payload_is_complete : BootMetadata → Bool
update_payload_is_complete m =
    m.active_update_id != 0 && m.expected_size != 0 && m.received_size == m.expected_size

-- The cases of the `switch` in `BootMetadata_StateFieldsAreConsistent`.
unfoldable pub fields_of_state : Option UpdateState → BootMetadata → Bool
unfolding update_payload_is_complete
fields_of_state (some idle) m =
    m.pending_version == 0
    && m.active_update_id == 0
    && m.received_size == 0
    && m.expected_size == 0
    && m.copy_offset == 0
    && m.boot_attempts == 0
fields_of_state (some receiving) m =
    m.active_update_id != 0 && m.expected_size != 0 && m.pending_version != 0
fields_of_state (some artifact_ready) m = update_payload_is_complete m && m.copy_offset == 0
fields_of_state (some verifying_container) m = update_payload_is_complete m
fields_of_state (some verifying_base) m = update_payload_is_complete m
fields_of_state (some patching) m = update_payload_is_complete m
fields_of_state (some image_ready) m = update_payload_is_complete m
fields_of_state (some backing_up) m =
    update_payload_is_complete m
    && m.pending_version != 0
    && m.boot_attempts == 0
    && leb m.copy_offset application_max_size
    && (m.copy_offset == application_max_size
        || bit_and m.copy_offset (ext_flash_sector_size - 1) == 0)
fields_of_state (some installing) m =
    update_payload_is_complete m
    && leb m.copy_offset m.expected_size
    && (m.copy_offset == m.expected_size
        || bit_and m.copy_offset (internal_flash_page_size - 1) == 0)
fields_of_state (some verifying_install) m =
    update_payload_is_complete m && m.copy_offset == m.expected_size
fields_of_state (some trial_boot) m =
    update_payload_is_complete m
    && m.pending_version != 0
    && m.copy_offset == 0
    && leb m.boot_attempts max_boot_attempts
fields_of_state (some confirmed) m =
    update_payload_is_complete m
    && m.pending_version != 0
    && m.copy_offset == 0
    && ltb 0 m.boot_attempts
    && leb m.boot_attempts max_boot_attempts
fields_of_state (some rollback) m =
    update_payload_is_complete m
    && m.pending_version != 0
    && leb m.boot_attempts max_boot_attempts
    && leb m.copy_offset application_max_size
    && (m.copy_offset == application_max_size
        || bit_and m.copy_offset (internal_flash_page_size - 1) == 0)
fields_of_state (some failed) m = true
fields_of_state none m = false

unfoldable pub state_fields_are_consistent : BootMetadata → Bool
unfolding fields_of_state
state_fields_are_consistent m = fields_of_state (state_of m.state) m

unfoldable pub init : ℕ → BootMetadata
init active_version = record {
  magic = boot_metadata_magic;
  generation = 0;
  metadata_version = format_version;
  state = code idle;
  active_version = active_version;
  pending_version = 0;
  active_update_id = 0;
  received_size = 0;
  expected_size = 0;
  copy_offset = 0;
  boot_attempts = 0;
  last_error = 0;
  crc32 = 0;
}

-- The CRC runs over the bytes before the `crc32` field.
abbrev pub crc_offset : ℕ
crc_offset = 48

unfoldable pub calculate_crc : BootMetadata → ℕ
unfolding encode
calculate_crc m = Crc32.calculate (take crc_offset (encode m))

unfoldable pub finalize : BootMetadata → BootMetadata
finalize m =
    let stamped = record m { magic = boot_metadata_magic; metadata_version = format_version } in
    record stamped { crc32 = calculate_crc stamped }

unfoldable pub validate : Option BootMetadata → ValidationStatus
unfolding state_is_valid
validate none = invalid_argument
validate (some m) =
    if m.magic != boot_metadata_magic
    then invalid_magic
    else if m.metadata_version != format_version
    then invalid_version
    else if m.generation == 0
    then invalid_generation
    else if not (state_is_valid m.state)
    then invalid_state
    else if ltb m.expected_size m.received_size
        || ltb ext_incoming_size m.expected_size
        || ltb application_max_size m.copy_offset
    then invalid_progress
    else if not (state_fields_are_consistent m)
    then invalid_state_fields
    else if m.crc32 != calculate_crc m
    then invalid_crc
    else valid

abbrev pub is_valid_status : ValidationStatus → Bool
is_valid_status valid = true
is_valid_status _ = false

abbrev generation_or_zero : Option BootMetadata → ℕ
generation_or_zero none = 0
generation_or_zero (some m) = m.generation

-- `generation` is dereferenced only where the record validates, so never at NULL.
unfoldable pub select_newest_slot : Option BootMetadata → Option BootMetadata → Slot
select_newest_slot a b =
    select_newest (is_valid_status (validate a)) (is_valid_status (validate b))
      (generation_or_zero a) (generation_or_zero b)

unfoldable pub select_write_slot : Option BootMetadata → Option BootMetadata → Slot
select_write_slot a b = select_write (select_newest_slot a b)
