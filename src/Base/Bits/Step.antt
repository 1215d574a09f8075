-- ===== src/Base/Bits/Step.antt =====
-- One equation for the lowest digit of each operation: the fuel of `bitwise` is dropped.
use Prim.Native.Nat.{
  ℕ, zero, suc, ◌+◌, ◌*◌, ◌/◌, ◌%◌, ◌≤◌, ◌<◌, min, max, bit_and, bit_or, bit_xor, digits, bitwise,
  bit_and-bitwise, bit_or-bitwise, bit_xor-bitwise, differ,
}
use mathlib.Core.Path.{◌≡◌, refl, sym, ◌∙◌}
use native.Mathlib.Nat.{le_refl}
use native.Mathlib.Omega.{arith}

module _ (none_left : ℕ → ℕ) (digit : ℕ → ℕ → ℕ) where
  digits_zero : (fuel y : ℕ) → digits none_left digit fuel 0 y ≡ none_left y
  digits_zero zero y = refl
  digits_zero (suc fuel) y = refl

  -- Two amounts of fuel that both suffice give the same number.
  fuel_enough :
      (x y k l : ℕ) → x ≤ k → x ≤ l → digits none_left digit k x y ≡ digits none_left digit l x y
  fuel_enough zero y k l hk hl = digits_zero k y ∙ sym (digits_zero l y)
  fuel_enough (suc x) y (suc k) (suc l) hk hl =
      rw (fuel_enough (suc x / 2) (y / 2) k l (omega arith) (omega arith))
  fuel_enough (suc x) y zero l hk hl = absurd (omega arith)
  fuel_enough (suc x) y (suc k) zero hk hl = absurd (omega arith)

  lowest_digit :
      (x y : ℕ)
      → bitwise none_left digit (suc x) y
        ≡ digit (suc x % 2) (y % 2) + 2 * bitwise none_left digit (suc x / 2) (y / 2)
  lowest_digit x y =
      omega (arith, fuel_enough (suc x / 2) (y / 2) x (suc x / 2) (omega arith) (le_refl _))

-- The lowest digit of a conjunction is the smaller of the two.
pub bit_and_step : (x y : ℕ) → bit_and x y ≡ min (x % 2) (y % 2) + 2 * bit_and (x / 2) (y / 2)
bit_and_step zero y = simp bit_and-bitwise (omega arith)
bit_and_step (suc x) y = simp bit_and-bitwise (omega (arith, lowest_digit (λ rest. 0) min x y))

-- The lowest digit of a disjunction is the larger of the two.
pub bit_or_step : (x y : ℕ) → bit_or x y ≡ max (x % 2) (y % 2) + 2 * bit_or (x / 2) (y / 2)
bit_or_step zero y = simp bit_or-bitwise (omega arith)
bit_or_step (suc x) y = simp bit_or-bitwise (omega (arith, lowest_digit (λ rest. rest) max x y))

-- The lowest digit of an exclusive or is that of the sum.
differ_digits : (x y : ℕ) → x < 2 → y < 2 → differ x y ≡ (x + y) % 2
differ_digits zero zero p q = refl
differ_digits zero (suc zero) p q = refl
differ_digits (suc zero) zero p q = refl
differ_digits (suc zero) (suc zero) p q = refl
differ_digits zero (suc (suc y)) p q = absurd (omega arith)
differ_digits (suc zero) (suc (suc y)) p q = absurd (omega arith)
differ_digits (suc (suc x)) y p q = absurd (omega arith)

pub bit_xor_step : (a b : ℕ) → bit_xor a b ≡ bit_xor (a / 2) (b / 2) * 2 + (a + b) % 2
bit_xor_step zero b = simp bit_xor-bitwise (omega arith)
bit_xor_step (suc a) b = simp bit_xor-bitwise (
    omega (
      arith,
      lowest_digit (λ y. y) differ a b,
      differ_digits (suc a % 2) (b % 2) (omega arith) (omega arith),
    ))
