-- ===== src/BootMetadata/Corruption.antt =====
-- shared/src/boot_metadata.c: records with one damaged byte.
use secure_delta_ota_bootloa.Base.{
  ℕ, ◌<◌, ◌≡◌, ◌≢◌, ap, sym, ◌∙◌, List, some, arith, length, take, set, All, length-set,
}
use secure_delta_ota_bootloa.Base.Bytes.{IsByte, byte_at, get_u32_le}
use secure_delta_ota_bootloa.Base.Image.{word_at}
use secure_delta_ota_bootloa.Crc32.{calculate}
use secure_delta_ota_bootloa.Crc32.Sealed.{IsSealedAt, IsSealedAt-set, set-IsByte}
use secure_delta_ota_bootloa.BootMetadata.{
  BootMetadata, encode, decode, calculate_crc, validate, valid,
}
use secure_delta_ota_bootloa.BootMetadata.Image.{
  IsRecord, decode-encode, encode-decode, length-encode, encode-IsByte,
}
use secure_delta_ota_bootloa.BootMetadata.Checks.{validate_iff}

-- A valid record is one whose bytes are sealed.
valid-IsSealedAt :
    (bs : List ℕ)
    → length bs ≡ 52
    → All IsByte bs
    → validate (some (decode bs)) ≡ valid
    → IsSealedAt 48 bs
valid-IsSealedAt bs e h accepted =
    sym stored ∙ ((validate_iff (decode bs)).0 accepted).0.crc_matches ∙ covered
  where
    stored : (decode bs).crc32 ≡ get_u32_le bs 48
    stored = unfold decode in word_at 12 13 bs e (omega arith)

    covered : calculate_crc (decode bs) ≡ calculate (take 48 bs)
    covered = unfold calculate_crc in ap (λ t. calculate (take 48 t)) (encode-decode bs e h)

-- A record that validates, with any one byte of its flash image changed, no longer validates.
pub validate_detects_byte :
    (m : BootMetadata) (i y : ℕ)
    → IsRecord m
    → validate (some m) ≡ valid
    → i < 52
    → IsByte y
    → byte_at (encode m) i ≢ y
    → validate (some (decode (set (encode m) i y))) ≢ valid
validate_detects_byte m i y record_ok accepted hi hy ne damaged =
    IsSealedAt-set 48 (encode m) i y (length-encode m) (encode-IsByte m)
      (valid-IsSealedAt (encode m) (length-encode m) (encode-IsByte m)
        (ap (λ t. validate (some t)) (decode-encode m record_ok) ∙ accepted))
      hi hy ne
      (valid-IsSealedAt (set (encode m) i y) (length-set (encode m) i y ∙ length-encode m)
        (set-IsByte (encode m) i y (encode-IsByte m) hy) damaged)
