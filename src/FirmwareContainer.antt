-- ===== src/FirmwareContainer.antt =====
-- shared/src/firmware_container.c and shared/include/firmware_container.h: the header of a signed
-- container and its consistency with the size of the artifact.
pub mod Layout
pub mod Accepted
mod Tests
use secure_delta_ota_bootloa.Base.{
  ℕ, ◌+◌, ◌-◌, ◌^◌, Bool, true, false, not, ◌&&◌, ◌||◌, Option, none, some, List, [], ◌∷◌, ltb, leb,
  ◌==◌, ◌!=◌, if◌then◌else◌, take, drop, bit_or,
}
use secure_delta_ota_bootloa.Base.Bytes.{u32, get_u16_le, get_u32_le}
use secure_delta_ota_bootloa.Memory.{
  application_max_size, application_start_address, ext_incoming_size, ext_reconstructed_size,
}

abbrev pub container_magic : ℕ
container_magic = 0x544F4453

abbrev pub container_format_version : ℕ
container_format_version = 1

abbrev pub fixed_header_size : ℕ
fixed_header_size = 120

abbrev pub extension_magic_value : ℕ
extension_magic_value = 0x31584353

abbrev pub extension_size_value : ℕ
extension_size_value = 20

abbrev pub container_header_size : ℕ
container_header_size = fixed_header_size + extension_size_value

abbrev pub product_id_value : ℕ
product_id_value = 0x00001001

abbrev pub signature_size_value : ℕ
signature_size_value = 64

abbrev pub sha256_size : ℕ
sha256_size = 32

abbrev pub image_full : ℕ
image_full = 1

abbrev pub image_delta : ℕ
image_delta = 2

pub record ContainerHeader : Type 0 where
  pub magic : ℕ
  pub format_version : ℕ
  pub header_size : ℕ
  pub product_id : ℕ
  pub hardware_revision : ℕ
  pub image_type : ℕ
  pub flags : ℕ
  pub base_version : ℕ
  pub target_version : ℕ
  pub payload_size : ℕ
  pub target_image_size : ℕ
  pub target_load_address : ℕ
  pub base_image_sha256 : List ℕ
  pub target_image_sha256 : List ℕ
  pub payload_crc32 : ℕ
  pub hash_algorithm : ℕ
  pub signature_algorithm : ℕ
  pub signature_size : ℕ
  pub reserved : ℕ

pub record Extension : Type 0 where
  pub extension_magic : ℕ
  pub extension_version : ℕ
  pub extension_size : ℕ
  pub key_id : ℕ
  pub base_image_size : ℕ
  pub target_image_crc32 : ℕ

pub record ContainerInfo : Type 0 where
  pub header : ContainerHeader
  pub extension : Extension
  pub payload_offset : ℕ
  pub signature_offset : ℕ
  pub total_size : ℕ

pub data ContainerStatus : Type 0 where
  valid invalid_argument invalid_magic invalid_format_version invalid_header_size : ContainerStatus
  invalid_product invalid_hardware invalid_image_type invalid_flags invalid_version :
      ContainerStatus
  invalid_payload_size invalid_target_size invalid_target_address : ContainerStatus
  invalid_hash_algorithm invalid_signature_algorithm invalid_signature_size : ContainerStatus
  invalid_reserved invalid_extension invalid_base_size invalid_total_size : ContainerStatus

abbrev pub is_valid_container : ContainerStatus → Bool
is_valid_container valid = true
is_valid_container _ = false

-- The bytes of a hash, combined by `|=`.
unfoldable pub combine : ℕ → List ℕ → ℕ
combine combined [] = combined
combine combined (byte ∷ bytes) = combine (bit_or combined byte) bytes

unfoldable pub hash_is_zero : Option (List ℕ) → Bool
unfolding combine
hash_is_zero none = false
hash_is_zero (some hash) = combine 0 hash == 0

unfoldable pub header_of : List ℕ → ContainerHeader
header_of raw = record {
  magic = get_u32_le raw 0;
  format_version = get_u16_le raw 4;
  header_size = get_u16_le raw 6;
  product_id = get_u32_le raw 8;
  hardware_revision = get_u32_le raw 12;
  image_type = get_u32_le raw 16;
  flags = get_u32_le raw 20;
  base_version = get_u32_le raw 24;
  target_version = get_u32_le raw 28;
  payload_size = get_u32_le raw 32;
  target_image_size = get_u32_le raw 36;
  target_load_address = get_u32_le raw 40;
  base_image_sha256 = take sha256_size (drop 44 raw);
  target_image_sha256 = take sha256_size (drop 76 raw);
  payload_crc32 = get_u32_le raw 108;
  hash_algorithm = get_u16_le raw 112;
  signature_algorithm = get_u16_le raw 114;
  signature_size = get_u16_le raw 116;
  reserved = get_u16_le raw 118;
}

unfoldable pub extension_of : List ℕ → Extension
extension_of raw = record {
  extension_magic = get_u32_le raw fixed_header_size;
  extension_version = get_u16_le raw (fixed_header_size + 4);
  extension_size = get_u16_le raw (fixed_header_size + 6);
  key_id = get_u32_le raw (fixed_header_size + 8);
  base_image_size = get_u32_le raw (fixed_header_size + 12);
  target_image_crc32 = get_u32_le raw (fixed_header_size + 16);
}

-- The checks of `ParseFixed` on the fields that it has read.
unfoldable pub check_fixed : ContainerHeader → ContainerStatus
check_fixed h =
    if h.magic != container_magic
    then invalid_magic
    else if h.format_version != container_format_version
    then invalid_format_version
    else if h.header_size != container_header_size
    then invalid_header_size
    else if h.product_id != product_id_value
    then invalid_product
    else if h.hardware_revision != 1
    then invalid_hardware
    else if h.image_type != image_full && h.image_type != image_delta
    then invalid_image_type
    else if h.flags != 0
    then invalid_flags
    else if h.target_version == 0
    then invalid_version
    else if h.payload_size == 0
        || ltb (ext_incoming_size - container_header_size - signature_size_value) h.payload_size
    then invalid_payload_size
    else if ltb h.target_image_size 8
        || ltb application_max_size h.target_image_size
        || ltb ext_reconstructed_size h.target_image_size
    then invalid_target_size
    else if h.target_load_address != application_start_address
    then invalid_target_address
    else if h.hash_algorithm != 1
    then invalid_hash_algorithm
    else if h.signature_algorithm != 1
    then invalid_signature_algorithm
    else if h.signature_size != signature_size_value
    then invalid_signature_size
    else if h.reserved != 0
    then invalid_reserved
    else valid

unfoldable pub check_extension : Extension → ContainerStatus
check_extension e =
    if e.extension_magic != extension_magic_value
      || e.extension_version != 1
      || e.extension_size != extension_size_value
      || e.key_id == 0
    then invalid_extension
    else valid

-- Whether the fields about the base image contradict the type of the image.
unfoldable pub base_is_wrong : ContainerHeader → Extension → Bool
base_is_wrong h e =
    if h.image_type == image_full
    then h.base_version != 0
      || e.base_image_size != 0
      || not (hash_is_zero (some h.base_image_sha256))
      || h.payload_size != h.target_image_size
    else h.base_version == 0
      || ltb e.base_image_size 8
      || ltb application_max_size e.base_image_size
      || hash_is_zero (some h.base_image_sha256)

abbrev pub wrong : ContainerStatus → ContainerStatus × Option ContainerInfo
wrong status = (status, none)

-- The status, and the container's description where the parse succeeds; the fields that a failed
-- parse leaves behind are not part of the result.
unfoldable pub parse : Option (List ℕ) → ℕ → ContainerStatus × Option ContainerInfo
unfolding base_is_wrong
parse none artifact_size = wrong invalid_argument
parse (some raw) artifact_size =
    let h = header_of raw in
    let e = extension_of raw in
    let expected_total = u32 (u32 (h.header_size + h.payload_size) + h.signature_size) in
    if not (is_valid_container (check_fixed h))
    then wrong (check_fixed h)
    else if not (is_valid_container (check_extension e))
    then wrong (check_extension e)
    else if base_is_wrong h e
    then wrong invalid_base_size
    else if ltb (0xFFFFFFFF - h.header_size - h.signature_size) h.payload_size
    then wrong invalid_total_size
    else if artifact_size != 0 && artifact_size != expected_total
    then wrong invalid_total_size
    else (
      valid,
      some (record {
        header = h;
        extension = e;
        payload_offset = h.header_size;
        signature_offset = u32 (h.header_size + h.payload_size);
        total_size = expected_total;
      }),
    )
