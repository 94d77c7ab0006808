-- ===== src/Prelude/Bits/Digits.antt =====
-- The native bit operations, one binary digit at a time.
use Prim.Native.Nat.{
  ℕ, zero, suc, ◌+◌, ◌*◌, ◌/◌, ◌%◌, ◌≤◌, ◌<◌, min, max, differ, digits, bit_and, bit_or, bit_xor,
  bit_and-bitwise, bit_or-bitwise, bit_xor-bitwise,
}
use mathlib.Core.Path.{◌≡◌, refl, ap}
use native.Mathlib.Omega.{arith}
use native.Mathlib.Nat.{le_refl}

module _ (tail : ℕ → ℕ) (digit : ℕ → ℕ → ℕ) where
  -- The recursion gives the same with any fuel that is enough.
  enough_fuel : (j k x y : ℕ) → x ≤ j → x ≤ k → digits tail digit j x y ≡ digits tail digit k x y
  enough_fuel zero zero x y p q = refl
  enough_fuel zero (suc k) zero y p q = refl
  enough_fuel zero (suc k) (suc x) y p q = absurd (omega arith)
  enough_fuel (suc j) zero zero y p q = refl
  enough_fuel (suc j) zero (suc x) y p q = absurd (omega arith)
  enough_fuel (suc j) (suc k) zero y p q = refl
  enough_fuel (suc j) (suc k) (suc x) y p q =
      ap (λ (t : ℕ). t * 2 + digit (suc x % 2) (y % 2))
        (enough_fuel j k (suc x / 2) (y / 2) (omega arith) (omega arith))

  lowest :
      (x y : ℕ)
      → digits tail digit (suc x) (suc x) y
        ≡ digits tail digit (suc x / 2) (suc x / 2) (y / 2) * 2 + digit (suc x % 2) (y % 2)
  lowest x y =
      ap (λ (t : ℕ). t * 2 + digit (suc x % 2) (y % 2))
        (enough_fuel x (suc x / 2) (suc x / 2) (y / 2) (omega arith) (le_refl _))

pub bit_and-digit : (x y : ℕ) → bit_and x y ≡ bit_and (x / 2) (y / 2) * 2 + min (x % 2) (y % 2)
bit_and-digit zero y = simp bit_and-bitwise (omega arith)
bit_and-digit (suc x) y = simp bit_and-bitwise (lowest (λ _. 0) min x y)

pub bit_or-digit : (x y : ℕ) → bit_or x y ≡ bit_or (x / 2) (y / 2) * 2 + max (x % 2) (y % 2)
bit_or-digit zero y = simp bit_or-bitwise (omega arith)
bit_or-digit (suc x) y = simp bit_or-bitwise (lowest (λ t. t) max x y)

differ-digits : (x y : ℕ) → x < 2 → y < 2 → differ x y ≡ (x + y) % 2
differ-digits zero zero p q = refl
differ-digits zero (suc zero) p q = refl
differ-digits (suc zero) zero p q = refl
differ-digits (suc zero) (suc zero) p q = refl
differ-digits (suc (suc x)) y p q = absurd (omega arith)
differ-digits zero (suc (suc y)) p q = absurd (omega arith)
differ-digits (suc zero) (suc (suc y)) p q = absurd (omega arith)

bit_xor-differ : (x y : ℕ) → bit_xor x y ≡ bit_xor (x / 2) (y / 2) * 2 + differ (x % 2) (y % 2)
bit_xor-differ zero y =
    simp bit_xor-bitwise (omega (arith, differ-digits 0 (y % 2) (omega arith) (omega arith)))
bit_xor-differ (suc x) y = simp bit_xor-bitwise (lowest (λ t. t) differ x y)

pub bit_xor-digit : (x y : ℕ) → bit_xor x y ≡ bit_xor (x / 2) (y / 2) * 2 + (x % 2 + y % 2) % 2
bit_xor-digit x y =
    omega (arith, bit_xor-differ x y, differ-digits (x % 2) (y % 2) (omega arith) (omega arith))
