-- ===== src/UpdateHandoff/Checks.antt =====
-- shared/src/update_handoff.c: the handoff records that validate.
use secure_delta_ota_bootloa.Base.{◌≤◌, ◌≡◌, ◌≢◌, ◌↔◌, refl, some, arith}
use secure_delta_ota_bootloa.Base.Image.{bytes_of_words}
use secure_delta_ota_bootloa.Memory.{application_max_size, application_start_address}
use secure_delta_ota_bootloa.UpdateHandoff.{
  UpdateHandoff, finalize, validate, valid, calculate_crc, handoff_magic, handoff_format_version,
}

finalize-crc : (r : UpdateHandoff) → (finalize r).crc32 ≡ calculate_crc (finalize r)
unfolding finalize calculate_crc bytes_of_words
finalize-crc r = refl

-- A finalized record validates exactly if it has a generation, an update id and a target version,
-- its size is one of an application, and it is loaded at the application's address.
pub validate-finalize_handoff_iff :
    (r : UpdateHandoff)
    → (validate (some (finalize r)) ≡ valid) ↔ (
        (r.generation ≢ 0)
        × (r.update_id ≢ 0)
        × (r.target_version ≢ 0)
        × (8 ≤ r.image_size)
        × (r.image_size ≤ application_max_size)
        × (r.target_load_address ≡ application_start_address))
unfolding validate
validate-finalize_handoff_iff r = ground (arith, finalize-crc r, shape r)
  where
    shape :
        (q : UpdateHandoff)
        → (finalize q) ≡ record q {
          magic = handoff_magic;
          format_version = handoff_format_version;
          crc32 = (finalize q).crc32;
        }
    shape q = unfold finalize in refl
