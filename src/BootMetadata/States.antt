-- ===== src/BootMetadata/States.antt =====
-- shared/src/boot_metadata.c: the conditions of `BootMetadata_Validate`, with those of each state
-- written out.
use secure_delta_ota_bootloa.Base.{◌<◌, ◌≤◌, ◌≡◌, ◌≢◌, ◌↔◌, true, some, arith}
use secure_delta_ota_bootloa.Base.Bits.{bit_and_low}
use secure_delta_ota_bootloa.Memory.{application_max_size, ext_incoming_size}
use secure_delta_ota_bootloa.BootMetadata.{
  BootMetadata, code, idle, receiving, artifact_ready, verifying_container, image_ready, backing_up,
  installing, verifying_install, trial_boot, confirmed, rollback, failed, validate, valid,
  state_fields_are_consistent, max_boot_attempts,
}
use secure_delta_ota_bootloa.BootMetadata.Checks.{IsSealed, validate_iff, IsComplete, IsCheckpoint}

-- What each state asks of the other fields.
pub record FitsState (m : BootMetadata) : Type 0 where
  pub when_idle :
      m.state ≡ code idle
      → (m.pending_version ≡ 0)
        × (m.active_update_id ≡ 0)
        × (m.received_size ≡ 0)
        × (m.expected_size ≡ 0)
        × (m.copy_offset ≡ 0)
        × (m.boot_attempts ≡ 0)
  pub when_receiving :
      m.state ≡ code receiving
      → (m.active_update_id ≢ 0) × (m.expected_size ≢ 0) × (m.pending_version ≢ 0)
  pub when_artifact_ready : m.state ≡ code artifact_ready → IsComplete m × (m.copy_offset ≡ 0)
  pub when_preparing :
      code verifying_container ≤ m.state → m.state ≤ code image_ready → IsComplete m
  pub when_backing_up :
      m.state ≡ code backing_up
      → IsComplete m
        × (m.pending_version ≢ 0)
        × (m.boot_attempts ≡ 0)
        × IsCheckpoint application_max_size 4096 m.copy_offset
  pub when_installing :
      m.state ≡ code installing → IsComplete m × IsCheckpoint m.expected_size 1024 m.copy_offset
  pub when_verifying_install :
      m.state ≡ code verifying_install → IsComplete m × (m.copy_offset ≡ m.expected_size)
  pub when_trial_boot :
      m.state ≡ code trial_boot
      → IsComplete m
        × (m.pending_version ≢ 0)
        × (m.copy_offset ≡ 0)
        × (m.boot_attempts ≤ max_boot_attempts)
  pub when_confirmed :
      m.state ≡ code confirmed
      → IsComplete m
        × (m.pending_version ≢ 0)
        × (m.copy_offset ≡ 0)
        × (0 < m.boot_attempts)
        × (m.boot_attempts ≤ max_boot_attempts)
  pub when_rollback :
      m.state ≡ code rollback
      → IsComplete m
        × (m.pending_version ≢ 0)
        × (m.boot_attempts ≤ max_boot_attempts)
        × IsCheckpoint application_max_size 1024 m.copy_offset

-- The bounds that hold in every state.
pub record IsBounded (m : BootMetadata) : Type 0 where
  pub generation_set : m.generation ≢ 0
  pub state_known : m.state ≤ code failed
  pub received_bounded : m.received_size ≤ m.expected_size
  pub expected_bounded : m.expected_size ≤ ext_incoming_size
  pub offset_bounded : m.copy_offset ≤ application_max_size

consistent_fits : (m : BootMetadata) → state_fields_are_consistent m ≡ true → FitsState m
unfolding state_fields_are_consistent
consistent_fits m h = record {
  when_idle = λ e. ground (arith, h, e);
  when_receiving = λ e. ground (arith, h, e);
  when_artifact_ready = λ e. ground (arith, h, e);
  when_preparing = λ lo hi. ground (arith, h, lo, hi);
  when_backing_up = λ e. ground (arith, bit_and_low 12 m.copy_offset, h, e);
  when_installing = λ e. ground (arith, bit_and_low 10 m.copy_offset, h, e);
  when_verifying_install = λ e. ground (arith, h, e);
  when_trial_boot = λ e. ground (arith, h, e);
  when_confirmed = λ e. ground (arith, h, e);
  when_rollback = λ e. ground (arith, bit_and_low 10 m.copy_offset, h, e);
}

fits_consistent :
    (m : BootMetadata) → m.state ≤ code failed → FitsState m → state_fields_are_consistent m ≡ true
unfolding state_fields_are_consistent
fits_consistent m known fits =
    ground (arith, bit_and_low 10 m.copy_offset, bit_and_low 12 m.copy_offset, known, fits)

-- A record validates exactly if its magic, version and CRC are right, its generation is not 0, its
-- state is known, its progress is within its bounds, and the other fields fit its state: all zero when
-- idle; a session when receiving; else, unless the update failed, a complete payload, and by state the
-- pending version, the number of trials, and a copy offset that is 0, the end, or a checkpoint.
pub validate-valid_iff :
    (m : BootMetadata) → (validate (some m) ≡ valid) ↔ (IsSealed m × IsBounded m × FitsState m)
validate-valid_iff m = (
  λ h.
      let (sealed, sound) = (validate_iff m).0 h in
      (
        sealed,
        record {
          generation_set = sound.generation_set;
          state_known = sound.state_known;
          received_bounded = sound.received_bounded;
          expected_bounded = sound.expected_bounded;
          offset_bounded = sound.offset_bounded;
        },
        consistent_fits m sound.consistent,
      ),
  λ (sealed, bounded, fits). (validate_iff m).1 (
    sealed,
    record {
      generation_set = bounded.generation_set;
      state_known = bounded.state_known;
      received_bounded = bounded.received_bounded;
      expected_bounded = bounded.expected_bounded;
      offset_bounded = bounded.offset_bounded;
      consistent = fits_consistent m bounded.state_known fits;
    },
  ),
)
