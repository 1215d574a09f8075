-- ===== src/FirmwareContainer/Tests.antt =====
-- The header of a container with a full image.
use secure_delta_ota_bootloa.Base.{ℕ, ◌≡◌, ◌↔◌, refl, some, List, [], ◌∷◌}
use secure_delta_ota_bootloa.Base.Bytes.{get_u16_le, get_u32_le, le16, le32}
use secure_delta_ota_bootloa.FirmwareContainer.{
  ContainerInfo, valid, parse, header_of, extension_of, check_fixed, check_extension, base_is_wrong,
  hash_is_zero, combine,
}
use secure_delta_ota_bootloa.FirmwareContainer.Layout.{IsAcceptable, described, parse_iff}

abbrev raw_container : List ℕ
raw_container =
    83 ∷ 68 ∷ 79 ∷ 84 ∷ 1 ∷ 0 ∷ 140 ∷ 0 ∷ 1 ∷ 16 ∷ 0 ∷ 0 ∷ 1 ∷ 0 ∷ 0 ∷ 0 ∷ 1 ∷ 0 ∷ 0 ∷ 0 ∷ 0 ∷ 0 ∷ 0
    ∷ 0 ∷ 0 ∷ 0 ∷ 0 ∷ 0 ∷ 8 ∷ 0 ∷ 0 ∷ 0 ∷ 0 ∷ 16 ∷ 0 ∷ 0 ∷ 0 ∷ 16 ∷ 0 ∷ 0 ∷ 0 ∷ 96 ∷ 0 ∷ 8 ∷ 0 ∷ 0
    ∷ 0 ∷ 0 ∷ 0 ∷ 0 ∷ 0 ∷ 0 ∷ 0 ∷ 0 ∷ 0 ∷ 0 ∷ 0 ∷ 0 ∷ 0 ∷ 0 ∷ 0 ∷ 0 ∷ 0 ∷ 0 ∷ 0 ∷ 0 ∷ 0 ∷ 0 ∷ 0 ∷ 0
    ∷ 0 ∷ 0 ∷ 0 ∷ 0 ∷ 0 ∷ 0 ∷ 7 ∷ 7 ∷ 7 ∷ 7 ∷ 7 ∷ 7 ∷ 7 ∷ 7 ∷ 7 ∷ 7 ∷ 7 ∷ 7 ∷ 7 ∷ 7 ∷ 7 ∷ 7 ∷ 7 ∷ 7
    ∷ 7 ∷ 7 ∷ 7 ∷ 7 ∷ 7 ∷ 7 ∷ 7 ∷ 7 ∷ 7 ∷ 7 ∷ 7 ∷ 7 ∷ 7 ∷ 7 ∷ 9 ∷ 0 ∷ 0 ∷ 0 ∷ 1 ∷ 0 ∷ 1 ∷ 0 ∷ 64 ∷ 0
    ∷ 0 ∷ 0 ∷ 83 ∷ 67 ∷ 88 ∷ 49 ∷ 1 ∷ 0 ∷ 20 ∷ 0 ∷ 1 ∷ 0 ∷ 0 ∷ 0 ∷ 0 ∷ 0 ∷ 0 ∷ 0 ∷ 5 ∷ 0 ∷ 0 ∷ 0
    ∷ []

abbrev container : ContainerInfo
container = record {
  header = header_of raw_container;
  extension = extension_of raw_container;
  payload_offset = 140;
  signature_offset = 4236;
  total_size = 4300;
}

raw_container_accepted : parse (some raw_container) 4300 ≡ (valid, some container)
unfolding parse header_of extension_of check_fixed check_extension base_is_wrong hash_is_zero
    combine get_u16_le get_u32_le le16 le32
raw_container_accepted = refl

abbrev container_size : ℕ
container_size = 4300

parse_iff_example :
    (parse (some raw_container) container_size ≡ (valid, some container))
    ↔ (IsAcceptable raw_container container_size × (container ≡ described raw_container))
parse_iff_example = parse_iff raw_container container_size container
