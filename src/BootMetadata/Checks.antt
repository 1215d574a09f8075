-- ===== src/BootMetadata/Checks.antt =====
-- shared/src/boot_metadata.c: the conditions of `BootMetadata_Validate`.
use secure_delta_ota_bootloa.Base.{ℕ, ◌%◌, ◌≤◌, ◌≡◌, ◌≢◌, ◌↔◌, ◌⊎◌, true, some, arith}
use secure_delta_ota_bootloa.Base.Bits.{bit_and_low}
use secure_delta_ota_bootloa.Memory.{application_max_size, ext_incoming_size}
use secure_delta_ota_bootloa.BootMetadata.{
  BootMetadata, boot_metadata_magic, format_version, code, failed, installing, backing_up,
  trial_boot, confirmed, rollback, calculate_crc, validate, valid, is_valid_status,
  state_fields_are_consistent, max_boot_attempts,
}

-- The fields of the record, apart from the seal that `finalize` writes.
pub record HasSoundFields (m : BootMetadata) : Type 0 where
  pub generation_set : m.generation ≢ 0
  pub state_known : m.state ≤ code failed
  pub received_bounded : m.received_size ≤ m.expected_size
  pub expected_bounded : m.expected_size ≤ ext_incoming_size
  pub offset_bounded : m.copy_offset ≤ application_max_size
  pub consistent : state_fields_are_consistent m ≡ true

pub record IsSealed (m : BootMetadata) : Type 0 where
  pub magic_set : m.magic ≡ boot_metadata_magic
  pub version_set : m.metadata_version ≡ format_version
  pub crc_matches : m.crc32 ≡ calculate_crc m

pub valid_of :
    (m : BootMetadata) → is_valid_status (validate (some m)) ≡ true → validate (some m) ≡ valid
valid_of m e = ground arith

-- The checks of a record, with those of its state still as the code computes them; States writes
-- them out.
pub validate_iff :
    (m : BootMetadata) → (validate (some m) ≡ valid) ↔ (IsSealed m × HasSoundFields m)
unfolding validate
validate_iff m = ground arith

abbrev pub IsComplete : BootMetadata → Type 0
IsComplete m =
    (m.active_update_id ≢ 0) × (m.expected_size ≢ 0) × (m.received_size ≡ m.expected_size)

-- A checkpoint stands at the end, or on a boundary of the unit that is erased.
abbrev pub IsCheckpoint : ℕ → ℕ → ℕ → Type 0
IsCheckpoint end unit offset = (offset ≤ end) × ((offset ≡ end) ⊎ (offset % unit ≡ 0))

module _ (m : BootMetadata) (accepted : validate (some m) ≡ valid) where
  consistent_fields : state_fields_are_consistent m ≡ true
  consistent_fields = ((validate_iff m).0 accepted).1.consistent

  -- A valid record in the installing state has a complete payload, and its offset is the end of the
  -- image or on a page boundary before it.
  pub valid-installing :
      m.state ≡ code installing → IsComplete m × IsCheckpoint m.expected_size 1024 m.copy_offset
  unfolding state_fields_are_consistent
  valid-installing h = ground (arith, bit_and_low 10 m.copy_offset, consistent_fields)

  pub valid-backing_up :
      m.state ≡ code backing_up
      → IsComplete m
        × (m.pending_version ≢ 0)
        × (m.boot_attempts ≡ 0)
        × IsCheckpoint application_max_size 4096 m.copy_offset
  unfolding state_fields_are_consistent
  valid-backing_up h = ground (arith, bit_and_low 12 m.copy_offset, consistent_fields)

  pub valid-rollback :
      m.state ≡ code rollback
      → IsComplete m
        × (m.pending_version ≢ 0)
        × (m.boot_attempts ≤ max_boot_attempts)
        × IsCheckpoint application_max_size 1024 m.copy_offset
  unfolding state_fields_are_consistent
  valid-rollback h = ground (arith, bit_and_low 10 m.copy_offset, consistent_fields)

  pub valid-trial_boot :
      m.state ≡ code trial_boot
      → IsComplete m
        × (m.pending_version ≢ 0)
        × (m.copy_offset ≡ 0)
        × (m.boot_attempts ≤ max_boot_attempts)
  unfolding state_fields_are_consistent
  valid-trial_boot h = ground (arith, consistent_fields)

  pub valid-confirmed :
      m.state ≡ code confirmed
      → IsComplete m
        × (m.pending_version ≢ 0)
        × (m.copy_offset ≡ 0)
        × (m.boot_attempts ≢ 0)
        × (m.boot_attempts ≤ max_boot_attempts)
  unfolding state_fields_are_consistent
  valid-confirmed h = ground (arith, consistent_fields)
