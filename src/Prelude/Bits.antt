-- ===== src/Prelude/Bits.antt =====
-- Laws of the native bit operations at variables, from the digit recursion that they stand for.
pub mod Digits
pub mod Laws
pub mod Fields
use Prim.Native.Nat.{ℕ, zero, suc, ◌/◌, ◌≤◌, min, digits, bit_and, bit_and-bitwise}
use mathlib.Core.Path.{◌≡◌, refl, ◌∙◌}
use native.Mathlib.Omega.{arith}
use native.Mathlib.Nat.{le_refl}

digits_self : (n a : ℕ) → a ≤ n → digits (λ _. zero) min n a a ≡ a
digits_self zero zero h = refl
digits_self zero (suc a) h = absurd (omega arith)
digits_self (suc n) zero h = refl
digits_self (suc n) (suc a) h = omega (arith, digits_self n (suc a / 2) (omega arith))

-- A mask keeps every bit of itself.
pub bit_and_self : (a : ℕ) → bit_and a a ≡ a
bit_and_self a = bit_and-bitwise a a ∙ digits_self a a (le_refl a)
