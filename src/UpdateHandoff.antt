-- ===== src/UpdateHandoff.antt =====
-- shared/src/update_handoff.c and shared/include/update_handoff.h: the request to install that the
-- application leaves to the bootloader.
pub mod Image
pub mod Checks
mod Tests
use secure_delta_ota_bootloa.Base.{
  ℕ, Bool, true, false, not, ◌||◌, Option, none, some, List, [], ◌∷◌, ltb, ◌==◌, ◌!=◌,
  if◌then◌else◌, take, get_or,
}
use secure_delta_ota_bootloa.Base.Image.{bytes_of_words, words_of_bytes}
use secure_delta_ota_bootloa.Memory.{application_max_size, application_start_address}
use secure_delta_ota_bootloa.Crc32
use secure_delta_ota_bootloa.Slots
use secure_delta_ota_bootloa.Slots.{Slot, select_newest, select_write}

pub record UpdateHandoff : Type 0 where
  pub magic : ℕ
  pub generation : ℕ
  pub format_version : ℕ
  pub update_id : ℕ
  pub target_version : ℕ
  pub image_size : ℕ
  pub image_crc32 : ℕ
  pub target_load_address : ℕ
  pub crc32 : ℕ

pub data ValidationStatus : Type 0 where
  valid invalid_argument invalid_magic invalid_version invalid_generation : ValidationStatus
  invalid_update_id invalid_target_version invalid_image_size : ValidationStatus
  invalid_load_address invalid_crc : ValidationStatus

abbrev pub handoff_magic : ℕ
handoff_magic = 0x3641544F

abbrev pub handoff_format_version : ℕ
handoff_format_version = 1

abbrev pub words : UpdateHandoff → List ℕ
words r =
    r.magic ∷ r.generation ∷ r.format_version ∷ r.update_id ∷ r.target_version ∷ r.image_size
    ∷ r.image_crc32 ∷ r.target_load_address ∷ r.crc32 ∷ []

unfoldable pub of_words : List ℕ → UpdateHandoff
of_words ws = record {
  magic = get_or ws 0 0;
  generation = get_or ws 1 0;
  format_version = get_or ws 2 0;
  update_id = get_or ws 3 0;
  target_version = get_or ws 4 0;
  image_size = get_or ws 5 0;
  image_crc32 = get_or ws 6 0;
  target_load_address = get_or ws 7 0;
  crc32 = get_or ws 8 0;
}

unfoldable pub encode : UpdateHandoff → List ℕ
encode r = bytes_of_words (words r)

unfoldable pub decode : List ℕ → UpdateHandoff
unfolding of_words
decode bytes = of_words (words_of_bytes bytes)

abbrev pub crc_offset : ℕ
crc_offset = 32

unfoldable pub init : ℕ → ℕ → ℕ → ℕ → UpdateHandoff
init update_id target_version image_size image_crc32 = record {
  magic = handoff_magic;
  generation = 0;
  format_version = handoff_format_version;
  update_id = update_id;
  target_version = target_version;
  image_size = image_size;
  image_crc32 = image_crc32;
  target_load_address = application_start_address;
  crc32 = 0;
}

unfoldable pub calculate_crc : UpdateHandoff → ℕ
unfolding encode
calculate_crc r = Crc32.calculate (take crc_offset (encode r))

unfoldable pub finalize : UpdateHandoff → UpdateHandoff
finalize r =
    let stamped = record r { magic = handoff_magic; format_version = handoff_format_version } in
    record stamped { crc32 = calculate_crc stamped }

unfoldable pub validate : Option UpdateHandoff → ValidationStatus
validate none = invalid_argument
validate (some r) =
    if r.magic != handoff_magic
    then invalid_magic
    else if r.format_version != handoff_format_version
    then invalid_version
    else if r.generation == 0
    then invalid_generation
    else if r.update_id == 0
    then invalid_update_id
    else if r.target_version == 0
    then invalid_target_version
    else if ltb r.image_size 8 || ltb application_max_size r.image_size
    then invalid_image_size
    else if r.target_load_address != application_start_address
    then invalid_load_address
    else if r.crc32 != calculate_crc r
    then invalid_crc
    else valid

abbrev pub is_valid_status : ValidationStatus → Bool
is_valid_status valid = true
is_valid_status _ = false

unfoldable pub is_generation_newer : ℕ → ℕ → Bool
is_generation_newer candidate reference = Slots.is_generation_newer candidate reference

unfoldable pub next_generation : ℕ → ℕ
next_generation current_generation = Slots.next_generation current_generation

abbrev generation_or_zero : Option UpdateHandoff → ℕ
generation_or_zero none = 0
generation_or_zero (some r) = r.generation

unfoldable pub select_newest_slot : Option UpdateHandoff → Option UpdateHandoff → Slot
select_newest_slot a b =
    select_newest (is_valid_status (validate a)) (is_valid_status (validate b))
      (generation_or_zero a) (generation_or_zero b)

unfoldable pub select_write_slot : Option UpdateHandoff → Option UpdateHandoff → Slot
select_write_slot a b = select_write (select_newest_slot a b)
