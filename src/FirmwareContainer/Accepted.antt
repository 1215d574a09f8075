-- ===== src/FirmwareContainer/Accepted.antt =====
-- shared/src/firmware_container.c: the conditions of `FirmwareContainer_Parse`.
use secure_delta_ota_bootloa.Base.{
  ℕ, ◌+◌, ◌-◌, ◌≤◌, ◌<◌, ◌≡◌, ◌≢◌, ◌⊎◌, ◌↔◌, true, false, some, List, arith,
}
use secure_delta_ota_bootloa.Base.Bytes.{u32}
use secure_delta_ota_bootloa.Memory.{
  application_max_size, application_start_address, ext_incoming_size,
}
use secure_delta_ota_bootloa.FirmwareContainer.{
  ContainerHeader, Extension, valid, check_fixed, check_extension, base_is_wrong, parse,
  hash_is_zero, image_full, image_delta, container_header_size, signature_size_value,
  product_id_value, header_of, extension_of, container_magic, container_format_version,
  extension_magic_value, extension_size_value,
}

-- The fields that every container of this format has alike.
pub record HasFixedFields (h : ContainerHeader) (e : Extension) : Type 0 where
  pub magic_set : h.magic ≡ container_magic
  pub format_set : h.format_version ≡ container_format_version
  pub size_set : h.header_size ≡ container_header_size
  pub product_set : h.product_id ≡ product_id_value
  pub hardware_set : h.hardware_revision ≡ 1
  pub flags_clear : h.flags ≡ 0
  pub hash_set : h.hash_algorithm ≡ 1
  pub signature_set : h.signature_algorithm ≡ 1
  pub signature_sized : h.signature_size ≡ signature_size_value
  pub reserved_clear : h.reserved ≡ 0
  pub extension_set : e.extension_magic ≡ extension_magic_value
  pub extension_versioned : e.extension_version ≡ 1
  pub extension_sized : e.extension_size ≡ extension_size_value

-- The key, the version, the sizes of payload and image, and where the image is loaded.
pub record HasTarget (h : ContainerHeader) (e : Extension) : Type 0 where
  pub key_set : e.key_id ≢ 0
  pub version_set : h.target_version ≢ 0
  pub payload_min : 0 < h.payload_size
  pub payload_max :
      container_header_size + h.payload_size + signature_size_value ≤ ext_incoming_size
  pub target_min : 8 ≤ h.target_image_size
  pub target_max : h.target_image_size ≤ application_max_size
  pub load_address : h.target_load_address ≡ application_start_address

-- A full image names no base and its payload is the image; a delta image names a base that fits the
-- application region.
abbrev pub NamesBase : ContainerHeader → Extension → Type 0
NamesBase h e =
    ((h.image_type ≡ image_full)
      × (h.base_version ≡ 0)
      × (e.base_image_size ≡ 0)
      × (hash_is_zero (some h.base_image_sha256) ≡ true)
      × (h.payload_size ≡ h.target_image_size))
    ⊎ ((h.image_type ≡ image_delta)
        × (h.base_version ≢ 0)
        × (8 ≤ e.base_image_size)
        × (e.base_image_size ≤ application_max_size)
        × (hash_is_zero (some h.base_image_sha256) ≡ false))

-- The checks of the fixed header, in order.
record HasHeader (h : ContainerHeader) : Type 0 where
  magic_right : h.magic ≡ container_magic
  format_right : h.format_version ≡ container_format_version
  size_right : h.header_size ≡ container_header_size
  product_right : h.product_id ≡ product_id_value
  hardware_right : h.hardware_revision ≡ 1
  type_right : (h.image_type ≡ image_full) ⊎ (h.image_type ≡ image_delta)
  flags_right : h.flags ≡ 0
  version_right : h.target_version ≢ 0
  payload_low : 0 < h.payload_size
  payload_high : container_header_size + h.payload_size + signature_size_value ≤ ext_incoming_size
  target_low : 8 ≤ h.target_image_size
  target_high : h.target_image_size ≤ application_max_size
  address_right : h.target_load_address ≡ application_start_address
  hash_right : h.hash_algorithm ≡ 1
  signature_right : h.signature_algorithm ≡ 1
  signature_size_right : h.signature_size ≡ signature_size_value
  reserved_right : h.reserved ≡ 0

check_fixed_iff : (h : ContainerHeader) → (check_fixed h ≡ valid) ↔ HasHeader h
unfolding check_fixed
check_fixed_iff h = ground arith

check_extension_iff :
    (e : Extension)
    → (check_extension e ≡ valid) ↔ (
        (e.extension_magic ≡ extension_magic_value)
        × (e.extension_version ≡ 1)
        × (e.extension_size ≡ extension_size_value)
        × (e.key_id ≢ 0))
unfolding check_extension
check_extension_iff e = ground arith

base_is_wrong_iff :
    (h : ContainerHeader) (e : Extension)
    → (h.image_type ≡ image_full) ⊎ (h.image_type ≡ image_delta)
    → (base_is_wrong h e ≡ false) ↔ NamesBase h e
unfolding base_is_wrong
base_is_wrong_iff h e known = ground arith

-- The sum of the sizes does not wrap once the fixed header was accepted.
total_size_lem :
    (h : ContainerHeader)
    → HasHeader h
    → (u32 (u32 (h.header_size + h.payload_size) + h.signature_size)
        ≡ container_header_size + h.payload_size + signature_size_value)
      × (h.payload_size ≤ 0xFFFFFFFF - h.header_size - h.signature_size)
total_size_lem h right =
    omega (arith, right.size_right, right.signature_size_right, right.payload_high)

parse_checks :
    (raw : List ℕ) (artifact_size : ℕ)
    → let h = header_of raw in
      let e = extension_of raw in
      let total = u32 (u32 (h.header_size + h.payload_size) + h.signature_size) in
      ((parse (some raw) artifact_size).0 ≡ valid) ↔ (
        (check_fixed h ≡ valid)
        × (check_extension e ≡ valid)
        × (base_is_wrong h e ≡ false)
        × (h.payload_size ≤ 0xFFFFFFFF - h.header_size - h.signature_size)
        × ((artifact_size ≡ 0) ⊎ (artifact_size ≡ total)))
unfolding parse
parse_checks raw n = ground arith

-- The status alone, by the fields of the header.
pub parse_container_iff :
    (raw : List ℕ) (artifact_size : ℕ)
    → let h = header_of raw in
      let e = extension_of raw in
      ((parse (some raw) artifact_size).0 ≡ valid) ↔ (
        HasFixedFields h e
        × HasTarget h e
        × NamesBase h e
        × ((artifact_size ≡ 0)
            ⊎ (artifact_size ≡ container_header_size + h.payload_size + signature_size_value)))
parse_container_iff raw n =
    let h = header_of raw in
    let e = extension_of raw in
    ground
      (arith, check_fixed_iff h, check_extension_iff e, base_is_wrong_iff h e, parse_checks raw n)
