-- ===== src/Base/Image.antt =====
-- A persistent record is a structure of consecutive `uint32_t` fields: its byte image on the
-- little-endian target, and the fields read back from bytes.
use Prim.Native.Nat.{ℕ, zero, suc, ◌+◌, ◌*◌, ◌<◌}
use mathlib.Core.Path.{◌≡◌, refl, ap₂, sym, ◌∙◌}
use mathlib.Core.List.{List, [], ◌∷◌, ◌++◌}
use native.Mathlib.Omega.{arith}
use secure_delta_ota_bootloa.Base.Lists.{length, get_or, drop, All}
use secure_delta_ota_bootloa.Base.Bytes.{
  IsByte, IsU32, byte_at, le32, le32_sum, le32-put, put_u32_le, get_u32_le,
}

-- The byte image of consecutive `uint32_t` fields on the little-endian target, and back.
unfoldable pub bytes_of_words : List ℕ → List ℕ
unfolding put_u32_le
bytes_of_words [] = []
bytes_of_words (w ∷ ws) = put_u32_le w ++ bytes_of_words ws

unfoldable pub words_of_bytes : List ℕ → List ℕ
unfolding le32
words_of_bytes (a ∷ b ∷ c ∷ d ∷ rest) = le32 a b c d ∷ words_of_bytes rest
words_of_bytes _ = []

pub words-bytes : (ws : List ℕ) → All IsU32 ws → words_of_bytes (bytes_of_words ws) ≡ ws
unfolding words_of_bytes bytes_of_words
words-bytes [] h = refl
words-bytes (w ∷ ws) h = ap₂ ◌∷◌ (le32-put w h.0) (words-bytes ws h.1)

pub length-bytes_of_words : (ws : List ℕ) → length (bytes_of_words ws) ≡ 4 * length ws
unfolding bytes_of_words
length-bytes_of_words [] = refl
length-bytes_of_words (w ∷ ws) = omega (arith, length-bytes_of_words ws)

pub bytes_of_words-IsByte : (ws : List ℕ) → All IsByte (bytes_of_words ws)
unfolding bytes_of_words
bytes_of_words-IsByte [] = tt
bytes_of_words-IsByte (w ∷ ws) =
    (omega arith, (omega arith, (omega arith, (omega arith, bytes_of_words-IsByte ws))))

split_word :
    (a b c d : ℕ)
    → IsByte a
    → IsByte b
    → IsByte c
    → IsByte d
    → put_u32_le (le32 a b c d) ≡ a ∷ b ∷ c ∷ d ∷ []
unfolding put_u32_le
split_word a b c d ha hb hc hd = rw (le32_sum a b c d ha hb hc hd) (
    ap₂ ◌∷◌ (omega arith)
      (ap₂ ◌∷◌ (omega arith) (ap₂ ◌∷◌ (omega arith) (ap₂ ◌∷◌ (omega arith) refl))))

-- Bytes read as words are written back as they were.
pub bytes-words :
    (n : ℕ) (bs : List ℕ)
    → length bs ≡ 4 * n
    → All IsByte bs
    → bytes_of_words (words_of_bytes bs) ≡ bs
unfolding words_of_bytes bytes_of_words
bytes-words n [] e h = refl
bytes-words n (a ∷ []) e h = absurd (omega arith)
bytes-words n (a ∷ b ∷ []) e h = absurd (omega arith)
bytes-words n (a ∷ b ∷ c ∷ []) e h = absurd (omega arith)
bytes-words zero (a ∷ b ∷ c ∷ d ∷ rest) e h = absurd (omega arith)
bytes-words (suc n) (a ∷ b ∷ c ∷ d ∷ rest) e h =
    ap₂ ◌++◌ (split_word a b c d h.0 h.1.0 h.1.1.0 h.1.1.1.0)
      (bytes-words n rest (omega arith) h.1.1.1.1)

pub length-words_of_bytes :
    (n : ℕ) (bs : List ℕ) → length bs ≡ 4 * n → length (words_of_bytes bs) ≡ n
unfolding words_of_bytes
length-words_of_bytes n [] e = omega arith
length-words_of_bytes n (a ∷ []) e = absurd (omega arith)
length-words_of_bytes n (a ∷ b ∷ []) e = absurd (omega arith)
length-words_of_bytes n (a ∷ b ∷ c ∷ []) e = absurd (omega arith)
length-words_of_bytes zero (a ∷ b ∷ c ∷ d ∷ rest) e = absurd (omega arith)
length-words_of_bytes (suc n) (a ∷ b ∷ c ∷ d ∷ rest) e =
    omega (arith, length-words_of_bytes n rest (omega arith))

-- `n` words from the `k`-th on, each read by its index.
abbrev pub words_from : ℕ → ℕ → List ℕ → List ℕ
words_from zero k ws = []
words_from (suc n) k ws = get_or ws k 0 ∷ words_from n (suc k) ws

drop-get_or :
    (k n : ℕ) (ws : List ℕ) → length ws ≡ suc n + k → drop k ws ≡ get_or ws k 0 ∷ drop (suc k) ws
drop-get_or k n [] e = absurd (omega arith)
drop-get_or zero n (w ∷ ws) e = refl
drop-get_or (suc k) n (w ∷ ws) e = drop-get_or k n ws (omega arith)

drop_all : (k : ℕ) (ws : List ℕ) → length ws ≡ k → drop k ws ≡ []
drop_all zero [] e = refl
drop_all zero (w ∷ ws) e = absurd (omega arith)
drop_all (suc k) [] e = refl
drop_all (suc k) (w ∷ ws) e = drop_all k ws (omega arith)

words_from-drop : (n k : ℕ) (ws : List ℕ) → length ws ≡ n + k → words_from n k ws ≡ drop k ws
words_from-drop zero k ws e = sym (drop_all k ws (omega arith))
words_from-drop (suc n) k ws e =
    sym (drop-get_or k n ws e ∙ ap₂ ◌∷◌ refl (sym (words_from-drop n (suc k) ws (omega arith))))

-- A list is made of its elements.
pub words_from_lem : (n : ℕ) (ws : List ℕ) → length ws ≡ n → words_from n 0 ws ≡ ws
words_from_lem n ws e = words_from-drop n 0 ws (omega arith)

skip_word :
    (a b c d j k : ℕ) (rest : List ℕ)
    → j ≡ suc (suc (suc (suc k)))
    → byte_at (a ∷ b ∷ c ∷ d ∷ rest) j ≡ byte_at rest k
skip_word a b c d j k rest e = rw e

-- The `k`-th word, read from the bytes.
pub word_at :
    (k n : ℕ) (bs : List ℕ)
    → length bs ≡ 4 * n
    → k < n
    → get_or (words_of_bytes bs) k 0 ≡ get_u32_le bs (4 * k)
unfolding words_of_bytes get_u32_le
word_at k n [] e h = absurd (omega arith)
word_at k n (a ∷ []) e h = absurd (omega arith)
word_at k n (a ∷ b ∷ []) e h = absurd (omega arith)
word_at k n (a ∷ b ∷ c ∷ []) e h = absurd (omega arith)
word_at k zero (a ∷ b ∷ c ∷ d ∷ rest) e h = absurd (omega arith)
word_at zero (suc n) (a ∷ b ∷ c ∷ d ∷ rest) e h = refl
word_at (suc k) (suc n) (a ∷ b ∷ c ∷ d ∷ rest) e h =
    word_at k n rest (omega arith) (omega arith)
    ∙ rw
        (
          skip_word a b c d (4 * suc k) (4 * k) rest (omega arith),
          skip_word a b c d (4 * suc k + 1) (4 * k + 1) rest (omega arith),
          skip_word a b c d (4 * suc k + 2) (4 * k + 2) rest (omega arith),
          skip_word a b c d (4 * suc k + 3) (4 * k + 3) rest (omega arith),
        )
        refl

le32-IsU32 : (a b c d : ℕ) → IsByte a → IsByte b → IsByte c → IsByte d → IsU32 (le32 a b c d)
le32-IsU32 a b c d ha hb hc hd = omega (arith, le32_sum a b c d ha hb hc hd)

pub word-IsU32 : (k : ℕ) (bs : List ℕ) → All IsByte bs → IsU32 (get_or (words_of_bytes bs) k 0)
unfolding words_of_bytes
word-IsU32 k [] h = omega arith
word-IsU32 k (a ∷ []) h = omega arith
word-IsU32 k (a ∷ b ∷ []) h = omega arith
word-IsU32 k (a ∷ b ∷ c ∷ []) h = omega arith
word-IsU32 zero (a ∷ b ∷ c ∷ d ∷ rest) h = le32-IsU32 a b c d h.0 h.1.0 h.1.1.0 h.1.1.1.0
word-IsU32 (suc k) (a ∷ b ∷ c ∷ d ∷ rest) h = word-IsU32 k rest h.1.1.1.1
