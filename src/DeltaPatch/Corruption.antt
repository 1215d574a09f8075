-- ===== src/DeltaPatch/Corruption.antt =====
-- shared/src/delta_patch.c: headers with one damaged byte.
use secure_delta_ota_bootloa.Base.{ℕ, ◌<◌, ◌≡◌, ◌≢◌, List, some, length, set, All}
use secure_delta_ota_bootloa.Base.Bytes.{IsByte, byte_at}
use secure_delta_ota_bootloa.Crc32.Sealed.{IsSealedAt, IsSealedAt-set}
use secure_delta_ota_bootloa.DeltaPatch.{parse_header, valid, header_size, header_crc32}
use secure_delta_ota_bootloa.DeltaPatch.Header.{parse_header_iff}

accepted-IsSealedAt :
    (raw : List ℕ) (n : ℕ) → (parse_header (some raw) n).0 ≡ valid → IsSealedAt 44 raw
unfolding header_crc32
accepted-IsSealedAt raw n accepted = ((parse_header_iff raw n).0 accepted).0.crc_matches

-- Once a header was accepted, the header with any one byte changed is not accepted, whatever size
-- is asked for.
pub parse_header_detects_byte :
    (raw : List ℕ) (n n' i y : ℕ)
    → length raw ≡ header_size
    → All IsByte raw
    → (parse_header (some raw) n).0 ≡ valid
    → i < header_size
    → IsByte y
    → byte_at raw i ≢ y
    → (parse_header (some (set raw i y)) n').0 ≢ valid
parse_header_detects_byte raw n n' i y len bytes accepted hi hy ne damaged =
    IsSealedAt-set 44 raw i y len bytes (accepted-IsSealedAt raw n accepted) hi hy ne
      (accepted-IsSealedAt (set raw i y) n' damaged)
