-- ===== src/DownloadCheckpoint.antt =====
-- shared/src/download_checkpoint.c and shared/include/download_checkpoint.h: how far a transfer
-- over the UART has come.
pub mod Image
pub mod Checks
use secure_delta_ota_bootloa.Base.{
  ℕ, ◌-◌, Bool, true, false, not, ◌||◌, Option, none, some, List, [], ◌∷◌, bit_and, ltb, ◌==◌, ◌!=◌,
  if◌then◌else◌, take, get_or,
}
use secure_delta_ota_bootloa.Base.Image.{bytes_of_words, words_of_bytes}
use secure_delta_ota_bootloa.Memory.{ext_incoming_size, ext_flash_sector_size}
use secure_delta_ota_bootloa.Crc32
use secure_delta_ota_bootloa.Slots
use secure_delta_ota_bootloa.Slots.{Slot, select_newest, select_write}

pub data CheckpointState : Type 0 where
  idle receiving artifact_ready : CheckpointState

abbrev pub code : CheckpointState → ℕ
code idle = 0
code receiving = 1
code artifact_ready = 2

pub record DownloadCheckpoint : Type 0 where
  pub magic : ℕ
  pub generation : ℕ
  pub format_version : ℕ
  pub state : ℕ
  pub update_id : ℕ
  pub target_version : ℕ
  pub image_size : ℕ
  pub image_crc32 : ℕ
  pub next_offset : ℕ
  pub crc32 : ℕ

pub data ValidationStatus : Type 0 where
  valid invalid_argument invalid_magic invalid_version invalid_generation : ValidationStatus
  invalid_state invalid_fields invalid_crc : ValidationStatus

abbrev pub checkpoint_magic : ℕ
checkpoint_magic = 0x37504344

abbrev pub checkpoint_format_version : ℕ
checkpoint_format_version = 1

abbrev pub words : DownloadCheckpoint → List ℕ
words r =
    r.magic ∷ r.generation ∷ r.format_version ∷ r.state ∷ r.update_id ∷ r.target_version
    ∷ r.image_size ∷ r.image_crc32 ∷ r.next_offset ∷ r.crc32 ∷ []

unfoldable pub of_words : List ℕ → DownloadCheckpoint
of_words ws = record {
  magic = get_or ws 0 0;
  generation = get_or ws 1 0;
  format_version = get_or ws 2 0;
  state = get_or ws 3 0;
  update_id = get_or ws 4 0;
  target_version = get_or ws 5 0;
  image_size = get_or ws 6 0;
  image_crc32 = get_or ws 7 0;
  next_offset = get_or ws 8 0;
  crc32 = get_or ws 9 0;
}

unfoldable pub encode : DownloadCheckpoint → List ℕ
encode r = bytes_of_words (words r)

unfoldable pub decode : List ℕ → DownloadCheckpoint
unfolding of_words
decode bytes = of_words (words_of_bytes bytes)

abbrev pub crc_offset : ℕ
crc_offset = 36

unfoldable pub init_session : CheckpointState → ℕ → ℕ → ℕ → ℕ → ℕ → DownloadCheckpoint
init_session state update_id target_version image_size image_crc32 next_offset = record {
  magic = checkpoint_magic;
  generation = 0;
  format_version = checkpoint_format_version;
  state = code state;
  update_id = update_id;
  target_version = target_version;
  image_size = image_size;
  image_crc32 = image_crc32;
  next_offset = next_offset;
  crc32 = 0;
}

unfoldable pub init_idle : DownloadCheckpoint
init_idle = record {
  magic = checkpoint_magic;
  generation = 0;
  format_version = checkpoint_format_version;
  state = code idle;
  update_id = 0;
  target_version = 0;
  image_size = 0;
  image_crc32 = 0;
  next_offset = 0;
  crc32 = 0;
}

unfoldable pub calculate_crc : DownloadCheckpoint → ℕ
unfolding encode
calculate_crc r = Crc32.calculate (take crc_offset (encode r))

unfoldable pub finalize : DownloadCheckpoint → DownloadCheckpoint
finalize r =
    let stamped = record r {
      magic = checkpoint_magic;
      format_version = checkpoint_format_version;
    } in
    record stamped { crc32 = calculate_crc stamped }

unfoldable pub session_fields_valid : DownloadCheckpoint → Bool
session_fields_valid r =
    if r.update_id == 0
      || r.image_size == 0
      || ltb ext_incoming_size r.image_size
      || ltb r.image_size r.next_offset
    then false
    else if r.state == code receiving
    then bit_and r.next_offset (ext_flash_sector_size - 1) == 0
    else if r.state == code artifact_ready
    then r.next_offset == r.image_size
    else false

unfoldable pub validate : Option DownloadCheckpoint → ValidationStatus
unfolding session_fields_valid
validate none = invalid_argument
validate (some r) =
    if r.magic != checkpoint_magic
    then invalid_magic
    else if r.format_version != checkpoint_format_version
    then invalid_version
    else if r.generation == 0
    then invalid_generation
    else if ltb (code artifact_ready) r.state
    then invalid_state
    else if r.state == code idle
    then if r.update_id != 0
        || r.target_version != 0
        || r.image_size != 0
        || r.image_crc32 != 0
        || r.next_offset != 0
      then invalid_fields
      else if r.crc32 != calculate_crc r
      then invalid_crc
      else valid
    else if not (session_fields_valid r)
    then invalid_fields
    else if r.crc32 != calculate_crc r
    then invalid_crc
    else valid

abbrev pub is_valid_status : ValidationStatus → Bool
is_valid_status valid = true
is_valid_status _ = false

unfoldable pub is_generation_newer : ℕ → ℕ → Bool
is_generation_newer candidate reference = Slots.is_generation_newer candidate reference

unfoldable pub next_generation : ℕ → ℕ
next_generation current_generation = Slots.next_generation current_generation

abbrev generation_or_zero : Option DownloadCheckpoint → ℕ
generation_or_zero none = 0
generation_or_zero (some r) = r.generation

unfoldable pub select_newest_slot : Option DownloadCheckpoint → Option DownloadCheckpoint → Slot
select_newest_slot a b =
    select_newest (is_valid_status (validate a)) (is_valid_status (validate b))
      (generation_or_zero a) (generation_or_zero b)

unfoldable pub select_write_slot : Option DownloadCheckpoint → Option DownloadCheckpoint → Slot
select_write_slot a b = select_write (select_newest_slot a b)
