-- ===== src/BackupImage.antt =====
-- shared/src/backup_image.c and shared/include/backup_image.h: the record in front of the backup of
-- the active application.
pub mod Image
pub mod Checks
use secure_delta_ota_bootloa.Base.{
  ℕ, Bool, true, false, Option, none, some, List, [], ◌∷◌, ◌==◌, ◌!=◌, if◌then◌else◌, take, get_or,
}
use secure_delta_ota_bootloa.Base.Image.{bytes_of_words, words_of_bytes}
use secure_delta_ota_bootloa.Memory.{application_max_size, application_start_address}
use secure_delta_ota_bootloa.Crc32

pub record BackupImage : Type 0 where
  pub magic : ℕ
  pub format_version : ℕ
  pub active_version : ℕ
  pub image_size : ℕ
  pub image_crc32 : ℕ
  pub load_address : ℕ
  pub crc32 : ℕ

pub data ValidationStatus : Type 0 where
  valid invalid_argument invalid_magic invalid_version invalid_active_version : ValidationStatus
  invalid_size invalid_load_address invalid_crc : ValidationStatus

abbrev pub backup_magic : ℕ
backup_magic = 0x38504B42

abbrev pub backup_format_version : ℕ
backup_format_version = 1

abbrev pub data_offset : ℕ
data_offset = 0x1000

abbrev pub words : BackupImage → List ℕ
words r =
    r.magic ∷ r.format_version ∷ r.active_version ∷ r.image_size ∷ r.image_crc32 ∷ r.load_address
    ∷ r.crc32 ∷ []

unfoldable pub of_words : List ℕ → BackupImage
of_words ws = record {
  magic = get_or ws 0 0;
  format_version = get_or ws 1 0;
  active_version = get_or ws 2 0;
  image_size = get_or ws 3 0;
  image_crc32 = get_or ws 4 0;
  load_address = get_or ws 5 0;
  crc32 = get_or ws 6 0;
}

unfoldable pub encode : BackupImage → List ℕ
encode r = bytes_of_words (words r)

unfoldable pub decode : List ℕ → BackupImage
unfolding of_words
decode bytes = of_words (words_of_bytes bytes)

abbrev pub crc_offset : ℕ
crc_offset = 24

unfoldable pub init : ℕ → ℕ → BackupImage
init active_version image_crc32 = record {
  magic = backup_magic;
  format_version = backup_format_version;
  active_version = active_version;
  image_size = application_max_size;
  image_crc32 = image_crc32;
  load_address = application_start_address;
  crc32 = 0;
}

unfoldable pub calculate_crc : BackupImage → ℕ
unfolding encode
calculate_crc r = Crc32.calculate (take crc_offset (encode r))

unfoldable pub finalize : BackupImage → BackupImage
finalize r =
    let stamped = record r { magic = backup_magic; format_version = backup_format_version } in
    record stamped { crc32 = calculate_crc stamped }

unfoldable pub validate : Option BackupImage → ValidationStatus
validate none = invalid_argument
validate (some r) =
    if r.magic != backup_magic
    then invalid_magic
    else if r.format_version != backup_format_version
    then invalid_version
    else if r.active_version == 0
    then invalid_active_version
    else if r.image_size != application_max_size
    then invalid_size
    else if r.load_address != application_start_address
    then invalid_load_address
    else if r.crc32 != calculate_crc r
    then invalid_crc
    else valid

abbrev pub is_valid_status : ValidationStatus → Bool
is_valid_status valid = true
is_valid_status _ = false
