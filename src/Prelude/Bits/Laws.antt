-- ===== src/Prelude/Bits/Laws.antt =====
-- Single bits of the results of the bit operations, and masks.
use Prim.Native.Nat.{
  ℕ, zero, suc, ◌+◌, ◌-◌, ◌*◌, ◌/◌, ◌%◌, ◌^◌, ◌≤◌, ◌<◌, min, max, bit_and, bit_or, bit_xor,
  bit_and-bitwise,
}
use mathlib.Core.Path.{◌≡◌, refl, ap, sym, ◌∙◌}
use native.Mathlib.Omega.{arith}
use native.Mathlib.Nat.{one-le-pow, div-div-eq-div-mul, pow-suc, one-le-pow}
use rosa.Prelude.Bits.Digits.{bit_and-digit, bit_or-digit, bit_xor-digit}

-- Bit k of a number.
abbrev pub bit : ℕ → ℕ → ℕ
bit k x = x / 2 ^ k % 2

pub bit-suc : (k x : ℕ) → bit (suc k) x ≡ bit k (x / 2)
bit-suc k x =
    ap (λ (t : ℕ). t % 2)
      (ap (λ (p : ℕ). x / p) (pow-suc 2 k ∙ omega arith) ∙ sym (div-div-eq-div-mul x 2 (2 ^ k)))

pub bit-zero : (x : ℕ) → bit 0 x ≡ x % 2
bit-zero x = omega arith

pub bit-le-one : (k x : ℕ) → bit k x ≤ 1
bit-le-one k x = omega arith

pub bit-bit_and : (k x y : ℕ) → bit k (bit_and x y) ≡ min (bit k x) (bit k y)
bit-bit_and zero x y = omega (arith, bit_and-digit x y)
bit-bit_and (suc k) x y =
    rw (bit-suc k (bit_and x y), bit-suc k x, bit-suc k y, halves) (bit-bit_and k (x / 2) (y / 2))
  where
    halves : bit_and x y / 2 ≡ bit_and (x / 2) (y / 2)
    halves = omega (arith, bit_and-digit x y)

pub bit-bit_or : (k x y : ℕ) → bit k (bit_or x y) ≡ max (bit k x) (bit k y)
bit-bit_or zero x y = omega (arith, bit_or-digit x y)
bit-bit_or (suc k) x y =
    rw (bit-suc k (bit_or x y), bit-suc k x, bit-suc k y, halves) (bit-bit_or k (x / 2) (y / 2))
  where
    halves : bit_or x y / 2 ≡ bit_or (x / 2) (y / 2)
    halves = omega (arith, bit_or-digit x y)

pub bit-bit_xor : (k x y : ℕ) → bit k (bit_xor x y) ≡ (bit k x + bit k y) % 2
bit-bit_xor zero x y = omega (arith, bit_xor-digit x y)
bit-bit_xor (suc k) x y =
    rw (bit-suc k (bit_xor x y), bit-suc k x, bit-suc k y, halves) (bit-bit_xor k (x / 2) (y / 2))
  where
    halves : bit_xor x y / 2 ≡ bit_xor (x / 2) (y / 2)
    halves = omega (arith, bit_xor-digit x y)

bit_and-nil : (n x : ℕ) → x ≤ n → bit_and x 0 ≡ 0
bit_and-nil zero zero h = refl
bit_and-nil zero (suc x) h = absurd (omega arith)
bit_and-nil (suc n) zero h = refl
bit_and-nil (suc n) (suc x) h =
    omega (arith, bit_and-digit (suc x) 0, bit_and-nil n (suc x / 2) (omega arith))

pub bit_and-zero : (x : ℕ) → bit_and x 0 ≡ 0
bit_and-zero x = bit_and-nil x x (omega arith)

-- A mask of one bit reads that bit.
pub bit_and_power : (k x : ℕ) → bit_and x (2 ^ k) ≡ bit k x * 2 ^ k
bit_and_power zero x = omega (arith, bit_and-digit x 1, bit_and-zero (x / 2))
bit_and_power (suc k) x =
    rw (bit-suc k x, pow-suc 2 k)
      (grind (arith, bit_and-digit x (2 * 2 ^ k), bit_and_power k (x / 2), even (2 ^ k)))
  where
    even : (p : ℕ) → (2 * p / 2 ≡ p) × (2 * p % 2 ≡ 0)
    even p = (omega arith, omega arith)

pub doubled : (q k : ℕ) → q * 2 ^ suc k ≡ 2 * (q * 2 ^ k)
doubled q k = omega (arith, ap (λ (p : ℕ). q * p) (pow-suc 2 k))

below_mask : (k q r : ℕ) → r < 2 ^ k → bit_and (q * 2 ^ k + r) (2 ^ k - 1) ≡ r
below_mask zero q zero h = bit_and-zero (q * 1 + 0)
below_mask zero q (suc r) h = absurd (omega arith)
below_mask (suc k) q r h = ground (
  arith,
  doubled q k,
  pow-suc 2 k,
  one-le-pow k 2,
  bit_and-digit (q * 2 ^ suc k + r) (2 ^ suc k - 1),
  below_mask k q (r / 2) (omega (arith, pow-suc 2 k)),
)

-- A mask of low bits is a remainder.
pub bit_and_low : (k x : ℕ) → bit_and x (2 ^ k - 1) ≡ x % 2 ^ k
bit_and_low k x = ground (arith, one-le-pow k 2, below_mask k (x / 2 ^ k) (x % 2 ^ k))

pub bit_and-le : (n x y : ℕ) → x ≤ n → bit_and x y ≤ x
bit_and-le zero zero y h = omega (arith, bit_and-bitwise 0 y)
bit_and-le zero (suc x) y h = absurd (omega arith)
bit_and-le (suc n) zero y h = omega (arith, bit_and-bitwise 0 y)
bit_and-le (suc n) (suc x) y h =
    omega (arith, bit_and-digit (suc x) y, bit_and-le n (suc x / 2) (y / 2) (omega arith))

pub bit_xor-lt : (k x y : ℕ) → x < 2 ^ k → y < 2 ^ k → bit_xor x y < 2 ^ k
bit_xor-lt zero zero zero p q = omega arith
bit_xor-lt zero zero (suc y) p q = absurd (omega arith)
bit_xor-lt zero (suc x) y p q = absurd (omega arith)
bit_xor-lt (suc k) x y p q = omega (
  arith,
  pow-suc 2 k,
  bit_xor-digit x y,
  bit_xor-lt k (x / 2) (y / 2) (omega (arith, pow-suc 2 k)) (omega (arith, pow-suc 2 k)),
)
