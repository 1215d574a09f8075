-- ===== src/DownloadCheckpoint/Image.antt =====
-- shared/include/download_checkpoint.h: a record and its stored bytes.
use secure_delta_ota_bootloa.Base.{ℕ, ◌≡◌, refl, List, arith, length, take, All, All-take}
use secure_delta_ota_bootloa.Base.Bytes.{IsByte, IsU32}
use secure_delta_ota_bootloa.Base.Image.{
  words_of_bytes, words-bytes, bytes-words, length-words_of_bytes, length-bytes_of_words,
  bytes_of_words-IsByte, words_from_lem, word-IsU32,
}
use secure_delta_ota_bootloa.Crc32.Laws.{calculate-IsU32}
use secure_delta_ota_bootloa.DownloadCheckpoint.{
  DownloadCheckpoint, words, of_words, encode, decode, calculate_crc, finalize, crc_offset,
}

-- Every field is a `uint32_t`.
abbrev pub IsRecord : DownloadCheckpoint → Type 0
IsRecord r = All IsU32 (words r)

pub decode_checkpoint-encode : (r : DownloadCheckpoint) → IsRecord r → decode (encode r) ≡ r
unfolding decode encode
decode_checkpoint-encode r h = rw (words-bytes (words r) h) refl

words-of_words : (ws : List ℕ) → length ws ≡ 10 → words (of_words ws) ≡ ws
unfolding of_words
words-of_words ws e = words_from_lem 10 ws e

pub encode_checkpoint-decode :
    (bs : List ℕ) → length bs ≡ 40 → All IsByte bs → encode (decode bs) ≡ bs
unfolding decode encode
encode_checkpoint-decode bs e h =
    rw (words-of_words (words_of_bytes bs) (length-words_of_bytes 10 bs e)) (bytes-words 10 bs e h)

pub length-encode_checkpoint : (r : DownloadCheckpoint) → length (encode r) ≡ 40
unfolding encode
length-encode_checkpoint r = length-bytes_of_words (words r)

encode-IsByte : (r : DownloadCheckpoint) → All IsByte (encode r)
unfolding encode
encode-IsByte r = bytes_of_words-IsByte (words r)

calculate_crc-IsU32 : (r : DownloadCheckpoint) → IsU32 (calculate_crc r)
unfolding calculate_crc
calculate_crc-IsU32 r =
    calculate-IsU32 (take crc_offset (encode r))
      (All-take IsByte crc_offset (encode r) (encode-IsByte r))

-- Whatever bytes are read, the fields are words.
pub decode_checkpoint-IsRecord : (bs : List ℕ) → All IsByte bs → IsRecord (decode bs)
unfolding decode of_words
decode_checkpoint-IsRecord bs h =
    let w = λ (k : ℕ). word-IsU32 k bs h in
    (w 0, (w 1, (w 2, (w 3, (w 4, (w 5, (w 6, (w 7, (w 8, (w 9, tt))))))))))

pub finalize_checkpoint-IsRecord : (r : DownloadCheckpoint) → IsRecord r → IsRecord (finalize r)
unfolding finalize
finalize_checkpoint-IsRecord r (h0, (h1, (h2, (h3, (h4, (h5, (h6, (h7, (h8, h9))))))))) = (
  omega arith,
  (h1, (omega arith, (h3, (h4, (h5, (h6, (h7, (h8, (calculate_crc-IsU32 _, tt))))))))),
)

-- The generation and the finalization, as a commit sets them.
unfoldable pub seal : ℕ → DownloadCheckpoint → DownloadCheckpoint
unfolding finalize
seal g r = finalize (record r { generation = g })

pub seal_checkpoint-IsRecord :
    (g : ℕ) (r : DownloadCheckpoint) → IsU32 g → IsRecord r → IsRecord (seal g r)
unfolding seal
seal_checkpoint-IsRecord g r word h =
    finalize_checkpoint-IsRecord (record r { generation = g }) (with_generation h)
  where
    with_generation : IsRecord r → IsRecord (record r { generation = g })
    with_generation (h0, (h1, rest)) = (h0, (word, rest))

pub seal_checkpoint-generation : (g : ℕ) (r : DownloadCheckpoint) → (seal g r).generation ≡ g
unfolding seal
seal_checkpoint-generation g r = refl
