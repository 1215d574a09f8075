-- ===== src/Crc32/Laws.antt =====
-- shared/src/crc32.c: the running value, by chunks and by bytes.
use native.Mathlib.Nat.{div-eq_of_lt}
use secure_delta_ota_bootloa.Base.{
  ℕ, zero, suc, ◌/◌, ◌%◌, ◌^◌, bit_xor, List, [], ◌∷◌, ◌++◌, ◌≡◌, refl, sym, ◌∙◌, ◌⊎◌, inl, inr,
  arith, All,
}
use secure_delta_ota_bootloa.Base.Bits.{
  bit_and_low, bit_xor-lt, bit_xor_high, bit_xor_injective_left, bit_xor_injective_right,
}
use secure_delta_ota_bootloa.Base.Bytes.{IsByte, IsU32}
use secure_delta_ota_bootloa.Crc32.{
  polynomial, initial_value, final_xor, shift_bit, shift_bits, update, calculate,
}

-- What the low bit selects.
shift_bit_even : (crc : ℕ) → crc % 2 ≡ 0 → shift_bit crc ≡ bit_xor (crc / 2) 0
unfolding shift_bit
shift_bit_even crc h = rw (bit_and_low 1 crc, h)

shift_bit_odd : (crc : ℕ) → crc % 2 ≡ 1 → shift_bit crc ≡ bit_xor (crc / 2) polynomial
unfolding shift_bit
shift_bit_odd crc h = rw (bit_and_low 1 crc, h)

parity : (n : ℕ) → (n % 2 ≡ 0) ⊎ (n % 2 ≡ 1)
parity n = grind arith

shift_bit-IsU32 : (crc : ℕ) → IsU32 crc → IsU32 (shift_bit crc)
shift_bit-IsU32 crc h = elim (parity crc) [
  | inl even ↦ rw (shift_bit_even crc even) (bit_xor-lt 32 (crc / 2) 0 (omega arith) (omega arith))
  | inr odd ↦
      rw (shift_bit_odd crc odd) (bit_xor-lt 32 (crc / 2) polynomial (omega arith) (omega arith))
]

-- The polynomial sets the top bit, so a shifted-out one and a shifted-out zero differ there.
shift_bit_top :
    (a b : ℕ) → IsU32 a → IsU32 b → a % 2 ≡ 0 → b % 2 ≡ 1 → shift_bit a ≡ shift_bit b → ⊥
shift_bit_top a b ha hb even odd e =
    let low : bit_xor (a / 2) 0 / 2 ^ 31 ≡ 0 =
      bit_xor_high 31 (a / 2) 0 ∙ rw (div-eq_of_lt {n = a / 2} {m = 2 ^ 31} (omega arith)) refl in
    let high : bit_xor (b / 2) polynomial / 2 ^ 31 ≡ 1 =
      bit_xor_high 31 (b / 2) polynomial
      ∙ rw (div-eq_of_lt {n = b / 2} {m = 2 ^ 31} (omega arith)) refl in
    omega (arith, low, high, shift_bit_even a even, shift_bit_odd b odd, e)

shift_bit-injective : (a b : ℕ) → IsU32 a → IsU32 b → shift_bit a ≡ shift_bit b → a ≡ b
shift_bit-injective a b ha hb e = elim (parity a) [
  | inl ea ↦ elim (parity b) [
    | inl eb ↦ omega (
      arith,
      bit_xor_injective_left (a / 2) (b / 2) 0
          (sym (shift_bit_even a ea) ∙ e ∙ shift_bit_even b eb),
    )
    | inr ob ↦ absurd (shift_bit_top a b ha hb ea ob e)
  ]
  | inr oa ↦ elim (parity b) [
    | inl eb ↦ absurd (shift_bit_top b a hb ha eb oa (sym e))
    | inr ob ↦ omega (
      arith,
      bit_xor_injective_left (a / 2) (b / 2) polynomial
          (sym (shift_bit_odd a oa) ∙ e ∙ shift_bit_odd b ob),
    )
  ]
]

pub shift_bits-IsU32 : (n crc : ℕ) → IsU32 crc → IsU32 (shift_bits n crc)
unfolding shift_bits
shift_bits-IsU32 zero crc h = h
shift_bits-IsU32 (suc n) crc h = shift_bits-IsU32 n (shift_bit crc) (shift_bit-IsU32 crc h)

pub shift_bits-injective : (n a b : ℕ) → IsU32 a → IsU32 b → shift_bits n a ≡ shift_bits n b → a ≡ b
unfolding shift_bits
shift_bits-injective zero a b ha hb e = e
shift_bits-injective (suc n) a b ha hb e = shift_bit-injective a b ha hb (
    shift_bits-injective n (shift_bit a) (shift_bit b) (shift_bit-IsU32 a ha) (shift_bit-IsU32 b hb)
      e)

-- One byte, with the rounds shut.
pub step : ℕ → ℕ → ℕ
step crc byte = shift_bits 8 (bit_xor crc byte)

pub update-cons :
    (crc byte : ℕ) (bytes : List ℕ) → update crc (byte ∷ bytes) ≡ update (step crc byte) bytes
unfolding update step
update-cons crc byte bytes = refl

pub step-IsU32 : (crc byte : ℕ) → IsU32 crc → IsByte byte → IsU32 (step crc byte)
unfolding step
step-IsU32 crc byte hc hb =
    shift_bits-IsU32 8 (bit_xor crc byte) (bit_xor-lt 32 crc byte hc (omega arith))

-- For one byte the running value is a permutation of the words, and the byte can be told from it.
pub step-injective_crc :
    (a b byte : ℕ) → IsU32 a → IsU32 b → IsByte byte → step a byte ≡ step b byte → a ≡ b
unfolding step
step-injective_crc a b byte ha hb h e = bit_xor_injective_left a b byte (
    shift_bits-injective 8 (bit_xor a byte) (bit_xor b byte) (bit_xor-lt 32 a byte ha (omega arith))
      (bit_xor-lt 32 b byte hb (omega arith)) e)

pub step-injective_byte :
    (crc x y : ℕ) → IsU32 crc → IsByte x → IsByte y → step crc x ≡ step crc y → x ≡ y
unfolding step
step-injective_byte crc x y h hx hy e = bit_xor_injective_right crc x y (
    shift_bits-injective 8 (bit_xor crc x) (bit_xor crc y) (bit_xor-lt 32 crc x h (omega arith))
      (bit_xor-lt 32 crc y h (omega arith)) e)

-- Feeding a range in two chunks is feeding it whole.
pub update-append : (crc : ℕ) (xs ys : List ℕ) → update crc (xs ++ ys) ≡ update (update crc xs) ys
update-append crc [] ys = unfold update in refl
update-append crc (x ∷ xs) ys =
    rw (update-cons crc x (xs ++ ys), update-cons crc x xs) (update-append (step crc x) xs ys)

pub update-IsU32 : (crc : ℕ) (xs : List ℕ) → IsU32 crc → All IsByte xs → IsU32 (update crc xs)
update-IsU32 crc [] h hx = unfold update in h
update-IsU32 crc (x ∷ xs) h hx =
    rw (update-cons crc x xs) (update-IsU32 (step crc x) xs (step-IsU32 crc x h hx.0) hx.1)

-- The stored value is a 32-bit word.
pub calculate-IsU32 : (bytes : List ℕ) → All IsByte bytes → IsU32 (calculate bytes)
unfolding calculate
calculate-IsU32 bytes h =
    bit_xor-lt 32 (update initial_value bytes) final_xor
      (update-IsU32 initial_value bytes (omega arith) h) (omega arith)
