-- ===== src/BackupImage/Image.antt =====
-- shared/include/backup_image.h: a record and its stored bytes.
use secure_delta_ota_bootloa.Base.{ℕ, ◌≡◌, refl, List, arith, length, take, All, All-take}
use secure_delta_ota_bootloa.Base.Bytes.{IsByte, IsU32}
use secure_delta_ota_bootloa.Base.Image.{
  words_of_bytes, words-bytes, bytes-words, length-words_of_bytes, length-bytes_of_words,
  bytes_of_words-IsByte, words_from_lem, word-IsU32,
}
use secure_delta_ota_bootloa.Crc32.Laws.{calculate-IsU32}
use secure_delta_ota_bootloa.BackupImage.{
  BackupImage, words, of_words, encode, decode, calculate_crc, finalize, crc_offset,
}

-- Every field is a `uint32_t`.
abbrev pub IsRecord : BackupImage → Type 0
IsRecord r = All IsU32 (words r)

pub decode_backup-encode : (r : BackupImage) → IsRecord r → decode (encode r) ≡ r
unfolding decode encode
decode_backup-encode r h = rw (words-bytes (words r) h) refl

words-of_words : (ws : List ℕ) → length ws ≡ 7 → words (of_words ws) ≡ ws
unfolding of_words
words-of_words ws e = words_from_lem 7 ws e

pub encode_backup-decode : (bs : List ℕ) → length bs ≡ 28 → All IsByte bs → encode (decode bs) ≡ bs
unfolding decode encode
encode_backup-decode bs e h =
    rw (words-of_words (words_of_bytes bs) (length-words_of_bytes 7 bs e)) (bytes-words 7 bs e h)

pub length-encode_backup : (r : BackupImage) → length (encode r) ≡ 28
unfolding encode
length-encode_backup r = length-bytes_of_words (words r)

encode-IsByte : (r : BackupImage) → All IsByte (encode r)
unfolding encode
encode-IsByte r = bytes_of_words-IsByte (words r)

calculate_crc-IsU32 : (r : BackupImage) → IsU32 (calculate_crc r)
unfolding calculate_crc
calculate_crc-IsU32 r =
    calculate-IsU32 (take crc_offset (encode r))
      (All-take IsByte crc_offset (encode r) (encode-IsByte r))

-- Whatever bytes are read, the fields are words.
pub decode_backup-IsRecord : (bs : List ℕ) → All IsByte bs → IsRecord (decode bs)
unfolding decode of_words
decode_backup-IsRecord bs h =
    let w = λ (k : ℕ). word-IsU32 k bs h in (w 0, (w 1, (w 2, (w 3, (w 4, (w 5, (w 6, tt)))))))

pub finalize_backup-IsRecord : (r : BackupImage) → IsRecord r → IsRecord (finalize r)
unfolding finalize
finalize_backup-IsRecord r (h0, (h1, (h2, (h3, (h4, (h5, h6)))))) =
    (omega arith, (omega arith, (h2, (h3, (h4, (h5, (calculate_crc-IsU32 _, tt)))))))
