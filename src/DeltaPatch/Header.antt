-- ===== src/DeltaPatch/Header.antt =====
-- shared/src/delta_patch.c: the conditions of `DeltaPatch_ParseHeader`.
use secure_delta_ota_bootloa.Base.{ℕ, ◌+◌, ◌≤◌, ◌<◌, ◌≡◌, ◌↔◌, ◌⊎◌, some, List, arith}
use secure_delta_ota_bootloa.Base.Bytes.{get_u16_le, get_u32_le}
use secure_delta_ota_bootloa.Memory.{
  application_max_size, application_start_address, ext_incoming_size,
}
use secure_delta_ota_bootloa.DeltaPatch.{
  DeltaHeader, valid, header_of, header_crc32, parse_header, check_header, patch_magic,
  patch_format_version, header_size, header_crc_offset,
}

-- The fixed fields and the seal of a header.
pub record IsSealed (raw : List ℕ) : Type 0 where
  pub magic_set : get_u32_le raw 0 ≡ patch_magic
  pub format_set : get_u16_le raw 4 ≡ patch_format_version
  pub size_set : get_u16_le raw 6 ≡ header_size
  pub crc_matches : get_u32_le raw header_crc_offset ≡ header_crc32 raw

-- The sizes of both images and of the patch, and the versions.
pub record IsInstallable (h : DeltaHeader) : Type 0 where
  pub upgrades : 0 < h.base_version
  pub newer : h.base_version < h.target_version
  pub base_min : 8 ≤ h.base_image_size
  pub base_max : h.base_image_size ≤ application_max_size
  pub patch_min : 0 < h.patch_size
  pub patch_max : header_size + h.patch_size ≤ ext_incoming_size
  pub target_min : 8 ≤ h.target_image_size
  pub target_max : h.target_image_size ≤ application_max_size
  pub load_address : h.target_load_address ≡ application_start_address

-- A delta header is accepted exactly if its fixed fields and CRC are right, its versions increase,
-- both images fit the application region, header and patch fit the incoming region, the load
-- address is the application's, and the size of the artifact, where it is given, is that of the
-- header and the patch.
pub parse_header_iff :
    (raw : List ℕ) (artifact_size : ℕ)
    → ((parse_header (some raw) artifact_size).0 ≡ valid) ↔ (
        IsSealed raw
        × IsInstallable (header_of raw)
        × ((artifact_size ≡ 0) ⊎ (artifact_size ≡ header_size + (header_of raw).patch_size)))
unfolding parse_header check_header
parse_header_iff raw n = ground arith
