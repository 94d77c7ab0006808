-- ===== src/Flags/Signs.antt =====
-- The conditions of the helpers, as comparisons of numbers.
use rosa.Prelude.{
  ℕ, zero, suc, ◌+◌, ◌-◌, ◌*◌, ◌/◌, ◌%◌, ◌^◌, ◌≤◌, ◌<◌, min, bit_and, bit_xor, ◌≡◌, refl, ap, ◌∙◌,
  inl, inr, Bool, true, false, not, ◌&&◌, ◌||◌, arith, leb, ◌==◌, if◌then◌else◌, Bool-cases,
}
use native.Mathlib.Nat.{pow-suc, one-le-pow, div-eq_of_lt, div-eq_of_lt-le, mod-eq-sub-mul-div}
use rosa.Prelude.Bits.Laws.{
  bit, bit-bit_and, bit-bit_xor, bit-le-one, bit_and_power, bit_and-le, bit_xor-lt,
}
use rosa.Flags.{adjusts, nonzero}
use rosa.Flags.Reports.{as_bit}

quotient : (p x : ℕ) → 0 < p → x < 2 * p → x / p ≡ as_bit (leb p x)
quotient p x pos h = elim (Bool-cases (leb p x)) [
  | inl e ↦ rw e (div-eq_of_lt-le {k = 1} p {m = x} (ground arith) (omega arith))
  | inr e ↦ rw e (div-eq_of_lt {n = x} {m = p} (ground arith))
]

pub power_pos : (k : ℕ) → 0 < 2 ^ k
power_pos k = omega (arith, one-le-pow k 2)

-- A number below 2 ^ (top + 1) and its highest bit.
pub sign : (top x : ℕ) → x < 2 * 2 ^ top → bit top x ≡ as_bit (leb (2 ^ top) x)
sign top x h = rw (quotient (2 ^ top) x (power_pos top) h) (digit (leb (2 ^ top) x))
  where
    digit : (b : Bool) → as_bit b % 2 ≡ as_bit b
    digit true = refl
    digit false = refl

pub nonzero-shift : (top x : ℕ) → x < 2 * 2 ^ top → nonzero (x / 2 ^ top) ≡ (bit top x == 1)
nonzero-shift top x h = rw (quotient (2 ^ top) x (power_pos top) h) (digit (leb (2 ^ top) x))
  where
    digit : (b : Bool) → nonzero (as_bit b) ≡ (as_bit b % 2 == 1)
    digit true = refl
    digit false = refl

pub nonzero-mask : (top x : ℕ) → nonzero (bit_and x (2 ^ top)) ≡ (bit top x == 1)
nonzero-mask top x =
    rw (bit_and_power top x) (scaled (bit top x) (2 ^ top) (power_pos top) (bit-le-one top x))
  where
    scaled : (b p : ℕ) → 0 < p → b ≤ 1 → nonzero (b * p) ≡ (b == 1)
    scaled zero p pos h = ground arith
    scaled (suc zero) p pos h = ground arith
    scaled (suc (suc b)) p pos h = absurd (omega arith)

-- Below 2 ^ (top + 1), as bit_xor-lt gives it.
xor_below : (top x y : ℕ) → x < 2 * 2 ^ top → y < 2 * 2 ^ top → bit_xor x y < 2 * 2 ^ top
xor_below top x y p q = omega (
  arith,
  pow-suc 2 top,
  bit_xor-lt (suc top) x y (omega (arith, pow-suc 2 top)) (omega (arith, pow-suc 2 top)),
)

-- The numbers' highest bits differ.
abbrev pub differ_at : ℕ → ℕ → ℕ → Bool
differ_at top x y = not (leb (2 ^ top) x && leb (2 ^ top) y) && (leb (2 ^ top) x || leb (2 ^ top) y)

differ-bits :
    (top x y : ℕ)
    → x < 2 * 2 ^ top
    → y < 2 * 2 ^ top
    → bit top (bit_xor x y) ≡ as_bit (differ_at top x y)
differ-bits top x y p q =
    bit-bit_xor top x y
    ∙ rw (sign top x p, sign top y q) (table (leb (2 ^ top) x) (leb (2 ^ top) y))
  where
    table : (a b : Bool) → (as_bit a + as_bit b) % 2 ≡ as_bit (not (a && b) && (a || b))
    table true true = refl
    table true false = refl
    table false true = refl
    table false false = refl

module _ (top lhs rhs result : ℕ) (l : lhs < 2 * 2 ^ top) (r : rhs < 2 * 2 ^ top)
    (s : result < 2 * 2 ^ top) where
  both : (a b : Bool) → (min (as_bit a) (as_bit b) == 1) ≡ (a && b)
  both true true = refl
  both true false = refl
  both false true = refl
  both false false = refl

  none_both : (a b : Bool) → (min ((as_bit a + 1) % 2) (as_bit b) == 1) ≡ (not a && b)
  none_both true true = refl
  none_both true false = refl
  none_both false true = refl
  none_both false false = refl

  subtracted :
      bit top (bit_and (bit_xor lhs rhs) (bit_xor lhs result))
      ≡ min (as_bit (differ_at top lhs rhs)) (as_bit (differ_at top lhs result))
  subtracted =
      bit-bit_and top (bit_xor lhs rhs) (bit_xor lhs result)
      ∙ rw (differ-bits top lhs rhs l r, differ-bits top lhs result l s) refl

  -- The overflow of a subtraction: the operands' signs differ, and the result's differs from the first.
  pub overflow-shift :
      nonzero (bit_and (bit_xor lhs rhs) (bit_xor lhs result) / 2 ^ top)
      ≡ (differ_at top lhs rhs && differ_at top lhs result)
  overflow-shift =
      nonzero-shift top (bit_and (bit_xor lhs rhs) (bit_xor lhs result)) (
        omega (
          arith,
          bit_and-le (bit_xor lhs rhs) (bit_xor lhs rhs) (bit_xor lhs result) (omega arith),
          xor_below top lhs rhs l r,
        ))
      ∙ rw subtracted (both (differ_at top lhs rhs) (differ_at top lhs result))

  pub overflow-mask :
      nonzero (bit_and (bit_and (bit_xor lhs rhs) (bit_xor lhs result)) (2 ^ top))
      ≡ (differ_at top lhs rhs && differ_at top lhs result)
  overflow-mask =
      nonzero-mask top (bit_and (bit_xor lhs rhs) (bit_xor lhs result))
      ∙ rw subtracted (both (differ_at top lhs rhs) (differ_at top lhs result))

  module _ (ones : ℕ) (set : bit top ones ≡ 1) where
    added :
        bit top (bit_and (bit_xor (bit_xor lhs rhs) ones) (bit_xor lhs result))
        ≡ min ((as_bit (differ_at top lhs rhs) + 1) % 2) (as_bit (differ_at top lhs result))
    added =
        bit-bit_and top (bit_xor (bit_xor lhs rhs) ones) (bit_xor lhs result)
        ∙ rw
            (
              bit-bit_xor top (bit_xor lhs rhs) ones,
              set,
              differ-bits top lhs rhs l r,
              differ-bits top lhs result l s,
            )
            refl

    -- The overflow of an addition: the operands' signs agree, and the result's differs from them.
    pub overflow_sum-mask :
        nonzero (bit_and (bit_and (bit_xor (bit_xor lhs rhs) ones) (bit_xor lhs result)) (2 ^ top))
        ≡ (not (differ_at top lhs rhs) && differ_at top lhs result)
    overflow_sum-mask =
        nonzero-mask top (bit_and (bit_xor (bit_xor lhs rhs) ones) (bit_xor lhs result))
        ∙ rw added (none_both (differ_at top lhs rhs) (differ_at top lhs result))

    pub overflow_sum-shift :
        ones < 2 * 2 ^ top
        → nonzero (bit_and (bit_xor (bit_xor lhs rhs) ones) (bit_xor lhs result) / 2 ^ top)
          ≡ (not (differ_at top lhs rhs) && differ_at top lhs result)
    overflow_sum-shift o =
        nonzero-shift top (bit_and (bit_xor (bit_xor lhs rhs) ones) (bit_xor lhs result)) (
          omega (
            arith,
            bit_and-le (bit_xor (bit_xor lhs rhs) ones) (bit_xor (bit_xor lhs rhs) ones)
                (bit_xor lhs result) (omega arith),
            xor_below top (bit_xor lhs rhs) ones (xor_below top lhs rhs l r) o,
          ))
        ∙ rw added (none_both (differ_at top lhs rhs) (differ_at top lhs result))

-- The auxiliary carry: bit 4 of the three numbers' exclusive or.
pub adjusts-bits :
    (lhs rhs result : ℕ)
    → adjusts lhs rhs result ≡ ((lhs / 16 % 2 + rhs / 16 % 2 + result / 16 % 2) % 2 == 1)
adjusts-bits lhs rhs result =
    nonzero-mask 4 (bit_xor (bit_xor lhs rhs) result)
    ∙ rw (bit-bit_xor 4 (bit_xor lhs rhs) result, bit-bit_xor 4 lhs rhs)
        (ap (λ (t : ℕ). t == 1) (omega arith))

-- The remainder of a number below twice the modulus.
pub wrapped : (m x : ℕ) → 0 < m → x < 2 * m → x % m ≡ (if leb m x then x - m else x)
wrapped m x pos h = elim (Bool-cases (leb m x)) [
  | inl e ↦ rw (mod-eq-sub-mul-div x m, quotient m x pos h, e) (omega arith)
  | inr e ↦ rw (mod-eq-sub-mul-div x m, quotient m x pos h, e) (omega arith)
]
