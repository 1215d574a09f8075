-- ===== src/UpdateHandoff/Tests.antt =====
-- A handoff of an image of 4096 bytes.
use secure_delta_ota_bootloa.Base.{◌≤◌, ◌≡◌, ◌≢◌, ◌↔◌, some}
use secure_delta_ota_bootloa.Memory.{application_max_size, application_start_address}
use secure_delta_ota_bootloa.UpdateHandoff.{UpdateHandoff, init, finalize, validate, valid}
use secure_delta_ota_bootloa.UpdateHandoff.Checks.{validate-finalize_handoff_iff}

abbrev handoff : UpdateHandoff
handoff = record (init 3 8 4096 0x1234) { generation = 1 }

validate-finalize_handoff_iff_example : (validate (some (finalize handoff)) ≡ valid) ↔ (
    (handoff.generation ≢ 0)
    × (handoff.update_id ≢ 0)
    × (handoff.target_version ≢ 0)
    × (8 ≤ handoff.image_size)
    × (handoff.image_size ≤ application_max_size)
    × (handoff.target_load_address ≡ application_start_address))
validate-finalize_handoff_iff_example = validate-finalize_handoff_iff handoff
