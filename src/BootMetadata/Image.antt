-- ===== src/BootMetadata/Image.antt =====
-- shared/include/boot_metadata.h: a record and its stored bytes.
use secure_delta_ota_bootloa.Base.{ℕ, ◌≡◌, refl, List, arith, length, take, All, All-take}
use secure_delta_ota_bootloa.Base.Bytes.{IsByte, IsU32}
use secure_delta_ota_bootloa.Base.Image.{
  bytes_of_words, words_of_bytes, words-bytes, bytes-words, length-words_of_bytes,
  length-bytes_of_words, bytes_of_words-IsByte, words_from_lem, word-IsU32,
}
use secure_delta_ota_bootloa.BootMetadata.{
  BootMetadata, words, of_words, encode, decode, calculate_crc, finalize, crc_offset,
}
use secure_delta_ota_bootloa.Crc32.Laws.{calculate-IsU32}

-- Every field is a `uint32_t`.
abbrev pub IsRecord : BootMetadata → Type 0
IsRecord m = All IsU32 (words m)

pub decode-encode : (m : BootMetadata) → IsRecord m → decode (encode m) ≡ m
unfolding decode encode
decode-encode m h = rw (words-bytes (words m) h) refl

words-of_words : (ws : List ℕ) → length ws ≡ 13 → words (of_words ws) ≡ ws
unfolding of_words
words-of_words ws e = words_from_lem 13 ws e

pub encode-decode : (bs : List ℕ) → length bs ≡ 52 → All IsByte bs → encode (decode bs) ≡ bs
unfolding decode encode
encode-decode bs e h =
    rw (words-of_words (words_of_bytes bs) (length-words_of_bytes 13 bs e)) (bytes-words 13 bs e h)

pub length-encode : (m : BootMetadata) → length (encode m) ≡ 52
unfolding encode
length-encode m = length-bytes_of_words (words m)

pub encode-IsByte : (m : BootMetadata) → All IsByte (encode m)
unfolding encode
encode-IsByte m = bytes_of_words-IsByte (words m)

-- The stored CRC is no part of what it covers.
pub calculate_crc-finalize : (m : BootMetadata) → (finalize m).crc32 ≡ calculate_crc (finalize m)
unfolding finalize calculate_crc encode bytes_of_words
calculate_crc-finalize m = refl

pub calculate_crc-IsU32 : (m : BootMetadata) → IsU32 (calculate_crc m)
unfolding calculate_crc
calculate_crc-IsU32 m =
    calculate-IsU32 (take crc_offset (encode m)) (All-take IsByte 48 (encode m) (encode-IsByte m))

-- Whatever bytes are read, the fields are words.
pub decode-IsRecord : (bs : List ℕ) → All IsByte bs → IsRecord (decode bs)
unfolding decode of_words
decode-IsRecord bs h =
    let w = λ (k : ℕ). word-IsU32 k bs h in
    (w 0, (w 1, (w 2, (w 3, (w 4, (w 5, (w 6, (w 7, (w 8, (w 9, (w 10, (w 11, (w 12, tt)))))))))))))

pub finalize-IsRecord : (m : BootMetadata) → IsRecord m → IsRecord (finalize m)
unfolding finalize
finalize-IsRecord m (h0, (h1, (h2, (h3, (h4, (h5, (h6, (h7, (h8, (h9, (h10, (h11, h12)))))))))))) =
    (
      omega arith,
      (
        h1,
        (
          omega arith,
          (h3, (h4, (h5, (h6, (h7, (h8, (h9, (h10, (h11, (calculate_crc-IsU32 _, tt)))))))))),
        ),
      ),
    )
