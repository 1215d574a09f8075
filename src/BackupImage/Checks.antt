-- ===== src/BackupImage/Checks.antt =====
-- shared/src/backup_image.c: the backup records that validate.
use secure_delta_ota_bootloa.Base.{◌≡◌, ◌≢◌, ◌↔◌, refl, some, arith}
use secure_delta_ota_bootloa.Base.Image.{bytes_of_words}
use secure_delta_ota_bootloa.Memory.{application_max_size, application_start_address}
use secure_delta_ota_bootloa.BackupImage.{
  BackupImage, finalize, validate, valid, calculate_crc, backup_magic, backup_format_version,
}

finalize-crc : (r : BackupImage) → (finalize r).crc32 ≡ calculate_crc (finalize r)
unfolding finalize calculate_crc bytes_of_words
finalize-crc r = refl

-- A finalized backup record validates exactly if its active version is not 0, its size is the
-- size of the application area and its load address is the application's address.
pub validate-finalize_backup_iff :
    (r : BackupImage)
    → (validate (some (finalize r)) ≡ valid) ↔ (
        (r.active_version ≢ 0)
        × (r.image_size ≡ application_max_size)
        × (r.load_address ≡ application_start_address))
unfolding validate
validate-finalize_backup_iff r = ground (arith, finalize-crc r, shape r)
  where
    shape :
        (q : BackupImage)
        → (finalize q) ≡ record q {
          magic = backup_magic;
          format_version = backup_format_version;
          crc32 = (finalize q).crc32;
        }
    shape q = unfold finalize in refl
