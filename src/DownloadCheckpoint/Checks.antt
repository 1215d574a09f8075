-- ===== src/DownloadCheckpoint/Checks.antt =====
-- shared/src/download_checkpoint.c: the checkpoints that validate.
use secure_delta_ota_bootloa.Base.{◌%◌, ◌≤◌, ◌≡◌, ◌≢◌, ◌↔◌, ◌⊎◌, refl, some, arith}
use secure_delta_ota_bootloa.Base.Bits.{bit_and_low}
use secure_delta_ota_bootloa.Base.Image.{bytes_of_words}
use secure_delta_ota_bootloa.Memory.{ext_incoming_size}
use secure_delta_ota_bootloa.DownloadCheckpoint.{
  DownloadCheckpoint, code, idle, receiving, artifact_ready, finalize, validate, valid,
  calculate_crc, checkpoint_magic, checkpoint_format_version,
}

finalize-crc : (r : DownloadCheckpoint) → (finalize r).crc32 ≡ calculate_crc (finalize r)
unfolding finalize calculate_crc bytes_of_words
finalize-crc r = refl

finalize-shape :
    (r : DownloadCheckpoint)
    → finalize r ≡ record r {
      magic = checkpoint_magic;
      format_version = checkpoint_format_version;
      crc32 = (finalize r).crc32;
    }
unfolding finalize
finalize-shape r = refl

abbrev pub IsEmpty : DownloadCheckpoint → Type 0
IsEmpty r =
    (r.update_id ≡ 0)
    × (r.target_version ≡ 0)
    × (r.image_size ≡ 0)
    × (r.image_crc32 ≡ 0)
    × (r.next_offset ≡ 0)

abbrev pub IsSession : DownloadCheckpoint → Type 0
IsSession r =
    (r.update_id ≢ 0)
    × (r.image_size ≢ 0)
    × (r.image_size ≤ ext_incoming_size)
    × (r.next_offset ≤ r.image_size)

-- A finalized record validates exactly if it has a generation and is idle and empty, or a session
-- that is receiving at a sector boundary, or a session whose artifact is complete.
pub validate-finalize_checkpoint_iff :
    (r : DownloadCheckpoint)
    → (validate (some (finalize r)) ≡ valid) ↔ (
        (r.generation ≢ 0)
        × (((r.state ≡ code idle) × IsEmpty r)
            ⊎ ((r.state ≡ code receiving) × IsSession r × (r.next_offset % 4096 ≡ 0))
            ⊎ ((r.state ≡ code artifact_ready) × IsSession r × (r.next_offset ≡ r.image_size))))
unfolding validate
validate-finalize_checkpoint_iff r =
    ground (arith, finalize-crc r, finalize-shape r, bit_and_low 12 r.next_offset)
