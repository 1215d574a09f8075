-- ===== src/UpdateHandoff/Image.antt =====
-- shared/include/update_handoff.h: a record and its stored bytes.
use secure_delta_ota_bootloa.Base.{ℕ, ◌≡◌, refl, List, arith, length, take, All, All-take}
use secure_delta_ota_bootloa.Base.Bytes.{IsByte, IsU32}
use secure_delta_ota_bootloa.Base.Image.{
  words_of_bytes, words-bytes, bytes-words, length-words_of_bytes, length-bytes_of_words,
  bytes_of_words-IsByte, words_from_lem, word-IsU32,
}
use secure_delta_ota_bootloa.Crc32.Laws.{calculate-IsU32}
use secure_delta_ota_bootloa.UpdateHandoff.{
  UpdateHandoff, words, of_words, encode, decode, calculate_crc, finalize, crc_offset,
}

-- Every field is a `uint32_t`.
abbrev pub IsRecord : UpdateHandoff → Type 0
IsRecord r = All IsU32 (words r)

pub decode_handoff-encode : (r : UpdateHandoff) → IsRecord r → decode (encode r) ≡ r
unfolding decode encode
decode_handoff-encode r h = rw (words-bytes (words r) h) refl

words-of_words : (ws : List ℕ) → length ws ≡ 9 → words (of_words ws) ≡ ws
unfolding of_words
words-of_words ws e = words_from_lem 9 ws e

pub encode_handoff-decode : (bs : List ℕ) → length bs ≡ 36 → All IsByte bs → encode (decode bs) ≡ bs
unfolding decode encode
encode_handoff-decode bs e h =
    rw (words-of_words (words_of_bytes bs) (length-words_of_bytes 9 bs e)) (bytes-words 9 bs e h)

pub length-encode_handoff : (r : UpdateHandoff) → length (encode r) ≡ 36
unfolding encode
length-encode_handoff r = length-bytes_of_words (words r)

encode-IsByte : (r : UpdateHandoff) → All IsByte (encode r)
unfolding encode
encode-IsByte r = bytes_of_words-IsByte (words r)

calculate_crc-IsU32 : (r : UpdateHandoff) → IsU32 (calculate_crc r)
unfolding calculate_crc
calculate_crc-IsU32 r =
    calculate-IsU32 (take crc_offset (encode r))
      (All-take IsByte crc_offset (encode r) (encode-IsByte r))

-- Whatever bytes are read, the fields are words.
pub decode_handoff-IsRecord : (bs : List ℕ) → All IsByte bs → IsRecord (decode bs)
unfolding decode of_words
decode_handoff-IsRecord bs h =
    let w = λ (k : ℕ). word-IsU32 k bs h in
    (w 0, (w 1, (w 2, (w 3, (w 4, (w 5, (w 6, (w 7, (w 8, tt)))))))))

pub finalize_handoff-IsRecord : (r : UpdateHandoff) → IsRecord r → IsRecord (finalize r)
unfolding finalize
finalize_handoff-IsRecord r (h0, (h1, (h2, (h3, (h4, (h5, (h6, (h7, h8)))))))) =
    (omega arith, (h1, (omega arith, (h3, (h4, (h5, (h6, (h7, (calculate_crc-IsU32 _, tt)))))))))

-- The generation and the finalization, as a commit sets them.
unfoldable pub seal : ℕ → UpdateHandoff → UpdateHandoff
unfolding finalize
seal g r = finalize (record r { generation = g })

pub seal_handoff-IsRecord : (g : ℕ) (r : UpdateHandoff) → IsU32 g → IsRecord r → IsRecord (seal g r)
unfolding seal
seal_handoff-IsRecord g r word h =
    finalize_handoff-IsRecord (record r { generation = g }) (with_generation h)
  where
    with_generation : IsRecord r → IsRecord (record r { generation = g })
    with_generation (h0, (h1, rest)) = (h0, (word, rest))

pub seal_handoff-generation : (g : ℕ) (r : UpdateHandoff) → (seal g r).generation ≡ g
unfolding seal
seal_handoff-generation g r = refl
