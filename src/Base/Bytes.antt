-- ===== src/Base/Bytes.antt =====
-- Bytes and little-endian words: `GetU16Le`, `GetU32Le`, `PutU16Le` and `PutU32Le`, which
-- ota_packet.c, ota_response.c, delta_patch.c and firmware_container.c each define alike,
-- and the byte image of a structure of 32-bit words.
use Prim.Native.Nat.{ℕ, ◌+◌, ◌*◌, ◌/◌, ◌%◌, ◌^◌, ◌<◌, bit_or}
use mathlib.Core.Path.{◌≡◌, ap, ◌∙◌}
use mathlib.Core.List.{List, [], ◌∷◌, ◌++◌}
use native.Mathlib.Omega.{arith}
use secure_delta_ota_bootloa.Base.Lists.{length, get_or, get_or-append}
use secure_delta_ota_bootloa.Base.Bits.{bit_or_shifted, bit_or_comm}

abbrev pub u8 : ℕ → ℕ
u8 n = n % 2 ^ 8

abbrev pub u16 : ℕ → ℕ
u16 n = n % 2 ^ 16

abbrev pub u32 : ℕ → ℕ
u32 n = n % 2 ^ 32

infixl 75 ◌<<<◌ ◌>>>◌
abbrev pub ◌<<<◌ : ℕ → ℕ → ℕ
x <<< k = x * 2 ^ k

abbrev pub ◌>>>◌ : ℕ → ℕ → ℕ
x >>> k = x / 2 ^ k

abbrev pub IsByte : ℕ → Type 0
IsByte b = b < 2 ^ 8

abbrev pub IsU16 : ℕ → Type 0
IsU16 n = n < 2 ^ 16

abbrev pub IsU32 : ℕ → Type 0
IsU32 n = n < 2 ^ 32

-- The byte at an index, 0 past the end.
abbrev pub byte_at : List ℕ → ℕ → ℕ
byte_at bytes i = get_or bytes i 0

unfoldable pub put_u16_le : ℕ → List ℕ
put_u16_le v = u8 v ∷ u8 (v >>> 8) ∷ []

unfoldable pub put_u32_le : ℕ → List ℕ
put_u32_le v = u8 v ∷ u8 (v >>> 8) ∷ u8 (v >>> 16) ∷ u8 (v >>> 24) ∷ []

unfoldable pub le16 : ℕ → ℕ → ℕ
le16 a b = u16 (bit_or a (u16 (b <<< 8)))

unfoldable pub le32 : ℕ → ℕ → ℕ → ℕ → ℕ
le32 a b c d = bit_or (bit_or (bit_or a (b <<< 8)) (c <<< 16)) (d <<< 24)

-- Both read at an offset of a buffer.
unfoldable pub get_u16_le : List ℕ → ℕ → ℕ
get_u16_le src i = le16 (byte_at src i) (byte_at src (i + 1))

unfoldable pub get_u32_le : List ℕ → ℕ → ℕ
get_u32_le src i =
    le32 (byte_at src i) (byte_at src (i + 1)) (byte_at src (i + 2)) (byte_at src (i + 3))

low_or_shifted : (k low high : ℕ) → low < 2 ^ k → bit_or low (high <<< k) ≡ low + high * 2 ^ k
low_or_shifted k low high h =
    bit_or_comm low (high <<< k) ∙ omega (arith, bit_or_shifted k high low h)

pub le16_sum : (a b : ℕ) → IsByte a → IsByte b → le16 a b ≡ a + b * 2 ^ 8
unfolding le16
le16_sum a b ha hb =
    let fits : u16 (b <<< 8) ≡ b <<< 8 = omega arith in
    rw (fits, low_or_shifted 8 a b ha) (omega arith)

pub le32_sum :
    (a b c d : ℕ)
    → IsByte a
    → IsByte b
    → IsByte c
    → IsByte d
    → le32 a b c d ≡ a + b * 2 ^ 8 + c * 2 ^ 16 + d * 2 ^ 24
unfolding le32
le32_sum a b c d ha hb hc hd =
    rw
      (
        low_or_shifted 8 a b ha,
        low_or_shifted 16 (a + b * 2 ^ 8) c (omega arith),
        low_or_shifted 24 (a + b * 2 ^ 8 + c * 2 ^ 16) d (omega arith),
      )
      (omega arith)

pub le16-put : (v : ℕ) → IsU16 v → le16 (u8 v) (u8 (v >>> 8)) ≡ v
le16-put v h = omega (arith, le16_sum (u8 v) (u8 (v >>> 8)) (omega arith) (omega arith))

pub le32-put : (v : ℕ) → IsU32 v → le32 (u8 v) (u8 (v >>> 8)) (u8 (v >>> 16)) (u8 (v >>> 24)) ≡ v
le32-put v h = omega (
  arith,
  le32_sum (u8 v) (u8 (v >>> 8)) (u8 (v >>> 16)) (u8 (v >>> 24)) (omega arith) (omega arith)
      (omega arith) (omega arith),
)

-- A word stored behind other bytes is read back at its offset.
pub get_u32_le-append :
    (xs : List ℕ) (v : ℕ) → IsU32 v → get_u32_le (xs ++ put_u32_le v) (length xs) ≡ v
unfolding get_u32_le put_u32_le
get_u32_le-append xs v h =
    let at_end : length xs ≡ length xs + 0 = omega arith in
    let tail = u8 v ∷ u8 (v >>> 8) ∷ u8 (v >>> 16) ∷ u8 (v >>> 24) ∷ [] in
    let first : byte_at (xs ++ tail) (length xs) ≡ u8 v =
      ap (byte_at (xs ++ tail)) at_end ∙ get_or-append xs tail 0 0 in
    rw (first, get_or-append xs tail 1 0, get_or-append xs tail 2 0, get_or-append xs tail 3 0)
      (le32-put v h)
