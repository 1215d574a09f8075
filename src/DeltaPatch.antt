-- ===== src/DeltaPatch.antt =====
-- shared/src/delta_patch.c and shared/include/delta_patch.h: the header of a delta artifact.
pub mod Header
pub mod Corruption
mod Tests
use secure_delta_ota_bootloa.Base.{
  ℕ, ◌+◌, ◌-◌, Bool, true, false, ◌&&◌, ◌||◌, Option, none, some, List, ltb, leb, ◌==◌, ◌!=◌,
  if◌then◌else◌, take,
}
use secure_delta_ota_bootloa.Base.Bytes.{u32, get_u16_le, get_u32_le}
use secure_delta_ota_bootloa.Memory.{
  application_max_size, application_start_address, ext_incoming_size, ext_reconstructed_size,
}
use secure_delta_ota_bootloa.Crc32

abbrev pub patch_magic : ℕ
patch_magic = 0x50333144

abbrev pub patch_format_version : ℕ
patch_format_version = 1

abbrev pub header_size : ℕ
header_size = 48

abbrev pub header_crc_offset : ℕ
header_crc_offset = 44

pub record DeltaHeader : Type 0 where
  pub base_version : ℕ
  pub target_version : ℕ
  pub base_image_size : ℕ
  pub patch_size : ℕ
  pub target_image_size : ℕ
  pub target_load_address : ℕ
  pub base_image_crc32 : ℕ
  pub target_image_crc32 : ℕ
  pub patch_crc32 : ℕ

pub data HeaderStatus : Type 0 where
  valid invalid_argument invalid_magic invalid_format invalid_header_size : HeaderStatus
  invalid_version invalid_base_size invalid_patch_size invalid_target_size : HeaderStatus
  invalid_target_address invalid_total_size invalid_crc : HeaderStatus

unfoldable pub header_crc32 : List ℕ → ℕ
header_crc32 raw = Crc32.calculate (take header_crc_offset raw)

unfoldable pub header_of : List ℕ → DeltaHeader
header_of raw = record {
  base_version = get_u32_le raw 8;
  target_version = get_u32_le raw 12;
  base_image_size = get_u32_le raw 16;
  patch_size = get_u32_le raw 20;
  target_image_size = get_u32_le raw 24;
  target_load_address = get_u32_le raw 28;
  base_image_crc32 = get_u32_le raw 32;
  target_image_crc32 = get_u32_le raw 36;
  patch_crc32 = get_u32_le raw 40;
}

-- The checks on the fields, then the total size and the CRC.
unfoldable pub check_header : DeltaHeader → List ℕ → ℕ → HeaderStatus
check_header h raw artifact_size =
    if h.base_version == 0 || h.target_version == 0 || leb h.target_version h.base_version
    then invalid_version
    else if ltb h.base_image_size 8 || ltb application_max_size h.base_image_size
    then invalid_base_size
    else if h.patch_size == 0 || ltb (ext_incoming_size - header_size) h.patch_size
    then invalid_patch_size
    else if ltb h.target_image_size 8
        || ltb application_max_size h.target_image_size
        || ltb ext_reconstructed_size h.target_image_size
    then invalid_target_size
    else if h.target_load_address != application_start_address
    then invalid_target_address
    else if artifact_size != 0 && u32 (header_size + h.patch_size) != artifact_size
    then invalid_total_size
    else if get_u32_le raw header_crc_offset != header_crc32 raw
    then invalid_crc
    else valid

-- The status, and the header that the function fills in: it is not touched before the fields are
-- read.
unfoldable pub parse_header : Option (List ℕ) → ℕ → HeaderStatus × Option DeltaHeader
unfolding check_header
parse_header none artifact_size = (invalid_argument, none)
parse_header (some raw) artifact_size =
    if get_u32_le raw 0 != patch_magic
    then (invalid_magic, none)
    else if get_u16_le raw 4 != patch_format_version
    then (invalid_format, none)
    else if get_u16_le raw 6 != header_size
    then (invalid_header_size, none)
    else (check_header (header_of raw) raw artifact_size, some (header_of raw))
