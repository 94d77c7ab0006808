-- ===== src/Flags/Meaning.antt =====
-- What additions and subtractions of words mean for the flags, by the numbers and not by their bits.
-- The words have top + 1 bits.
use native.Mathlib.Nat.{mod-lt}
use rosa.Prelude.{
  ℕ, ◌+◌, ◌-◌, ◌*◌, ◌%◌, ◌^◌, ◌≤◌, ◌<◌, ◌≡◌, ◌∙◌, Bool, not, ◌&&◌, arith, ltb, leb, ◌==◌,
  if◌then◌else◌,
}
use rosa.Flags.{even_parity, adjusts}
use rosa.Flags.Add.{biased}
use rosa.Flags.Reports.{Reports}
use rosa.Flags.Signs.{differ_at, wrapped, power_pos, adjusts-bits}

-- The sum of the signed numbers and the carry is at least -2 ^ top and below 2 ^ top.
abbrev pub signed_sum_fits : (top lhs rhs carry : ℕ) → Bool
signed_sum_fits top lhs rhs carry =
    let sum = biased (2 ^ top) lhs + biased (2 ^ top) rhs + carry in
    leb (2 ^ top) sum && ltb sum (3 * 2 ^ top)

-- The same of the difference of the signed numbers and the borrow.
abbrev pub signed_difference_fits : (top lhs rhs borrow : ℕ) → Bool
signed_difference_fits top lhs rhs borrow =
    let subtrahend = biased (2 ^ top) rhs + borrow in
    leb subtrahend (biased (2 ^ top) lhs + 2 ^ top)
    && ltb (biased (2 ^ top) lhs) (subtrahend + 2 ^ top)

abbrev pub sum_of : (top lhs rhs carry : ℕ) → ℕ
sum_of top lhs rhs carry = (lhs + rhs + carry) % (2 * 2 ^ top)

abbrev pub difference_of : (top lhs rhs borrow : ℕ) → ℕ
difference_of top lhs rhs borrow = (lhs + 2 * 2 ^ top - (rhs + borrow)) % (2 * 2 ^ top)

-- The flags of lhs + rhs + carry: the unsigned sum does not fit, the low halves of its lowest byte
-- carry, the sum is zero, its sign, and the signed sum does not fit.
abbrev pub SumFlags : (top rflags lhs rhs carry flags : ℕ) → Type 0
SumFlags top rflags lhs rhs carry =
    Reports rflags (leb (2 * 2 ^ top) (lhs + rhs + carry)) (even_parity (sum_of top lhs rhs carry))
      (leb 16 (lhs % 16 + rhs % 16 + carry)) (sum_of top lhs rhs carry == 0)
      (leb (2 ^ top) (sum_of top lhs rhs carry)) (not (signed_sum_fits top lhs rhs carry))

-- The flags of lhs - rhs - borrow.
abbrev pub DifferenceFlags : (top rflags lhs rhs borrow flags : ℕ) → Type 0
DifferenceFlags top rflags lhs rhs borrow =
    Reports rflags (ltb lhs (rhs + borrow)) (even_parity (difference_of top lhs rhs borrow))
      (ltb (lhs % 16) (rhs % 16 + borrow)) (difference_of top lhs rhs borrow == 0)
      (leb (2 ^ top) (difference_of top lhs rhs borrow))
      (not (signed_difference_fits top lhs rhs borrow))

pub sum_of-lt : (top lhs rhs carry : ℕ) → sum_of top lhs rhs carry < 2 * 2 ^ top
sum_of-lt top lhs rhs carry = mod-lt (lhs + rhs + carry) (omega (arith, power_pos top))

pub difference_of-lt : (top lhs rhs borrow : ℕ) → difference_of top lhs rhs borrow < 2 * 2 ^ top
difference_of-lt top lhs rhs borrow =
    mod-lt (lhs + 2 * 2 ^ top - (rhs + borrow)) (omega (arith, power_pos top))

module _ (top lhs rhs carry : ℕ) (l : lhs < 2 * 2 ^ top) (r : rhs < 2 * 2 ^ top)
    (c : carry ≤ 1) where
  sum-wraps : sum_of top lhs rhs carry ≡ (
      if leb (2 * 2 ^ top) (lhs + rhs + carry)
      then lhs + rhs + carry - 2 * 2 ^ top
      else lhs + rhs + carry)
  sum-wraps = wrapped (2 * 2 ^ top) (lhs + rhs + carry) (omega (arith, power_pos top)) (omega arith)

  difference-wraps :
      difference_of top lhs rhs carry
      ≡ (if ltb lhs (rhs + carry) then lhs + 2 * 2 ^ top - (rhs + carry) else lhs - (rhs + carry))
  difference-wraps = ground (
    arith,
    wrapped (2 * 2 ^ top) (lhs + 2 * 2 ^ top - (rhs + carry)) (omega (arith, power_pos top))
        (omega arith),
  )

  pub sum-overflows :
      (not (differ_at top lhs rhs) && differ_at top lhs (sum_of top lhs rhs carry))
      ≡ not (signed_sum_fits top lhs rhs carry)
  sum-overflows = rw sum-wraps (ground (arith, power_pos top))

  pub difference-overflows :
      (differ_at top lhs rhs && differ_at top lhs (difference_of top lhs rhs carry))
      ≡ not (signed_difference_fits top lhs rhs carry)
  difference-overflows = rw difference-wraps (ground (arith, power_pos top))

  module _ (k : ℕ) (wide : 2 ^ top ≡ 16 * k) where
    pub sum-adjusts :
        adjusts lhs rhs (sum_of top lhs rhs carry) ≡ leb 16 (lhs % 16 + rhs % 16 + carry)
    sum-adjusts = adjusts-bits lhs rhs (sum_of top lhs rhs carry) ∙ rw sum-wraps (ground arith)

    pub difference-adjusts :
        adjusts lhs rhs (difference_of top lhs rhs carry) ≡ ltb (lhs % 16) (rhs % 16 + carry)
    difference-adjusts =
        adjusts-bits lhs rhs (difference_of top lhs rhs carry) ∙ rw difference-wraps (ground arith)
