-- ===== src/Prelude/Bits/Fields.antt =====
-- Putting a field into a word whose bits are free there.
use Prim.Native.Nat.{ℕ, zero, suc, ◌+◌, ◌*◌, ◌/◌, ◌%◌, ◌^◌, ◌<◌, bit_or}
use mathlib.Core.Path.{◌≡◌, refl, ap, ◌∙◌}
use native.Mathlib.Omega.{arith}
use native.Mathlib.Nat.{pow-suc, one-le-pow, mod-lt}
use rosa.Prelude.Bits.Digits.{bit_or-digit}
use rosa.Prelude.Bits.Laws.{doubled}

bit_or-nil : (n x : ℕ) → x < suc n → bit_or x 0 ≡ x
bit_or-nil zero zero h = refl
bit_or-nil zero (suc x) h = absurd (omega arith)
bit_or-nil (suc n) zero h = refl
bit_or-nil (suc n) (suc x) h =
    omega (arith, bit_or-digit (suc x) 0, bit_or-nil n (suc x / 2) (omega arith))

high_field : (n hi f : ℕ) → f < 2 ^ n → bit_or (hi * 2 ^ n) f ≡ hi * 2 ^ n + f
high_field zero hi zero h = omega (arith, bit_or-nil (hi * 1) (hi * 1) (omega arith))
high_field zero hi (suc f) h = absurd (omega arith)
high_field (suc n) hi f h = ground (
  arith,
  bit_or-digit (hi * 2 ^ suc n) f,
  doubled hi n,
  high_field n hi (f / 2) (omega (arith, pow-suc 2 n)),
)

above_low :
    (s x y lo : ℕ) → lo < 2 ^ s → bit_or (x * 2 ^ s + lo) (y * 2 ^ s) ≡ bit_or x y * 2 ^ s + lo
above_low zero x y zero h = ground arith
above_low zero x y (suc lo) h = absurd (omega arith)
above_low (suc s) x y lo h = ground (
  arith,
  bit_or-digit (x * 2 ^ suc s + lo) (y * 2 ^ suc s),
  doubled x s,
  doubled y s,
  doubled (bit_or x y) s,
  above_low s x y (lo / 2) (omega (arith, pow-suc 2 s)),
)

-- A field of n bits at bit s is added where the word has none.
pub bit_or_field :
    (s n x f : ℕ) → x / 2 ^ s % 2 ^ n ≡ 0 → f < 2 ^ n → bit_or x (f * 2 ^ s) ≡ x + f * 2 ^ s
bit_or_field s n x f free small =
    ap (λ (t : ℕ). bit_or t (f * 2 ^ s)) (split x (2 ^ s))
    ∙ above_low s (x / 2 ^ s) f (x % 2 ^ s) (mod-lt x (omega (arith, one-le-pow s 2)))
    ∙ ap (λ (t : ℕ). t * 2 ^ s + x % 2 ^ s) joined
    ∙ grind (arith, split x (2 ^ s))
  where
    split : (m p : ℕ) → m ≡ m / p * p + m % p
    split m p = grind arith

    joined : bit_or (x / 2 ^ s) f ≡ x / 2 ^ s + f
    joined =
        ap (λ (t : ℕ). bit_or t f) (split (x / 2 ^ s) (2 ^ n) ∙ omega (arith, free))
        ∙ high_field n (x / 2 ^ s / 2 ^ n) f small
        ∙ omega (arith, split (x / 2 ^ s) (2 ^ n), free)
