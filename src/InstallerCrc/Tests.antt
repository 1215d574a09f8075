-- ===== src/InstallerCrc/Tests.antt =====
-- The CRC of 300 bytes, in two chunks.
use secure_delta_ota_bootloa.Base.{◌≡◌}
use secure_delta_ota_bootloa.Base.Range.{read_range}
use secure_delta_ota_bootloa.Memory.{application_start_address}
use secure_delta_ota_bootloa.Crc32.{calculate}
use secure_delta_ota_bootloa.MetadataStorage.Ram.{ram}
use secure_delta_ota_bootloa.InstallerCrc.{calculate_internal_crc}
use secure_delta_ota_bootloa.InstallerCrc.Chunks.{calculate_internal_crc_lem}

calculate_internal_crc_lem_example :
    calculate_internal_crc ram 300 (λ a. a)
    ≡ calculate (read_range (ram.read (λ a. a)) application_start_address 300)
calculate_internal_crc_lem_example = calculate_internal_crc_lem ram 300 (λ a. a)
