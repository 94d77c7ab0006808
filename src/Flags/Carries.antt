-- ===== src/Flags/Carries.antt =====
-- The helpers of additions with carry and subtractions with borrow.
use rosa.Prelude.{
  ℕ, suc, ◌+◌, ◌-◌, ◌*◌, ◌%◌, ◌^◌, ◌≤◌, ◌<◌, max, bit_and, bit_xor, ◌≡◌, refl, ◌∙◌, ◌≢◌, not, arith,
  ltb, leb, ◌==◌, u32, u64, u32_max, u64_max,
}
use rosa.Prelude.Bits.Laws.{bit_and_low}
use rosa.Flags.{
  even_parity, clear, asserts, status, arithmetic_flag_mask, u8, u16, adjusts, nonzero,
}
use rosa.Flags.Signs.{overflow-shift, overflow-mask, overflow_sum-shift}
use rosa.Flags.Meaning.{
  SumFlags, DifferenceFlags, sum_of, difference_of, sum_of-lt, difference_of-lt, sum-overflows,
  difference-overflows, difference-adjusts, signed_sum_fits,
}
use rosa.Flags.Sums.{conditions-Reports, sign-shift, sign-mask, low-all}
use rosa.Flags.Select.{Width, i8, i16, i32, i64, top_of, low, update_adc_flags, update_sbb_flags}
use rosa.Flags.Add.{update_adc_flags64, adjusts_with_carry, leaves_range}
use rosa.Flags.Subtract.{update_sbb_flags64}

-- The carry that a helper takes is one bit.
carry-digit : (x : ℕ) → bit_and x 1 ≡ x % 2
carry-digit x = bit_and_low 1 x

digit8 : (x : ℕ) → u8 (bit_and x 1) ≡ x % 2
digit8 x = omega (arith, carry-digit x)

digit16 : (x : ℕ) → u16 (bit_and x 1) ≡ x % 2
digit16 x = omega (arith, carry-digit x)

digit32 : (x : ℕ) → u32 (bit_and x 1) ≡ x % 2
digit32 x = omega (arith, carry-digit x)

adjusts_with_carry-low :
    (lhs rhs carry : ℕ) → adjusts_with_carry lhs rhs carry ≡ leb 16 (lhs % 16 + rhs % 16 + carry)
adjusts_with_carry-low lhs rhs carry = rw (bit_and_low 4 lhs, bit_and_low 4 rhs) (ground arith)

module _ (rflags top k lhs rhs carry : ℕ) (wide : 2 ^ top ≡ 16 * k) (c : carry ≤ 1)
    (l : lhs < 2 * 2 ^ top) (r : rhs < 2 * 2 ^ top) where
  leaves_range-fits : leaves_range (2 ^ top) lhs rhs carry ≡ not (signed_sum_fits top lhs rhs carry)
  leaves_range-fits = ground (arith, wide)

  narrow_sum :
      (max : ℕ)
      → suc max ≡ 2 * 2 ^ top
      → SumFlags top rflags lhs rhs carry (
          asserts
            (status
              (ltb max (lhs + rhs + carry))
              (even_parity (sum_of top lhs rhs carry))
              (adjusts_with_carry lhs rhs carry)
              (sum_of top lhs rhs carry == 0)
              (nonzero (bit_and (sum_of top lhs rhs carry) (2 ^ top)))
              (leaves_range (2 ^ top) lhs rhs carry))
            (clear rflags arithmetic_flag_mask))
  narrow_sum max last =
      conditions-Reports rflags (ground arith) (adjusts_with_carry-low lhs rhs carry)
        (sign-mask top (sum_of top lhs rhs carry) (sum_of-lt top lhs rhs carry)) leaves_range-fits

  narrow_difference : DifferenceFlags top rflags lhs rhs carry (
      asserts
        (status
          (ltb lhs (rhs + carry))
          (even_parity (difference_of top lhs rhs carry))
          (adjusts lhs rhs (difference_of top lhs rhs carry))
          (difference_of top lhs rhs carry == 0)
          (nonzero (bit_and (difference_of top lhs rhs carry) (2 ^ top)))
          (nonzero (
            bit_and
              (bit_and (bit_xor lhs rhs) (bit_xor lhs (difference_of top lhs rhs carry)))
              (2 ^ top))))
        (clear rflags arithmetic_flag_mask))
  narrow_difference =
      conditions-Reports rflags refl (difference-adjusts top lhs rhs carry l r c k wide)
        (sign-mask top (difference_of top lhs rhs carry) (difference_of-lt top lhs rhs carry))
        (overflow-mask top lhs rhs (difference_of top lhs rhs carry) l r
            (difference_of-lt top lhs rhs carry)
          ∙ difference-overflows top lhs rhs carry l r c)

adc64 :
    (rflags lhs rhs carry : ℕ)
    → lhs ≤ u64_max
    → rhs ≤ u64_max
    → SumFlags 63 rflags lhs rhs (carry % 2) (update_adc_flags64 rflags lhs rhs carry)
unfolding update_adc_flags64
adc64 rflags lhs rhs carry l r =
    rw (carry-digit carry, twice)
      (conditions-Reports rflags (ground arith) (adjusts_with_carry-low lhs rhs (carry % 2))
        (sign-shift 63 (sum_of 63 lhs rhs (carry % 2)) (omega arith))
        (overflow_sum-shift 63 lhs rhs (sum_of 63 lhs rhs (carry % 2)) (omega arith) (omega arith)
            (omega arith) u64_max refl (omega arith)
          ∙ sum-overflows 63 lhs rhs (carry % 2) (omega arith) (omega arith) (omega arith)))
  where
    twice : u64 (u64 (lhs + rhs) + carry % 2) ≡ sum_of 63 lhs rhs (carry % 2)
    twice = omega arith

-- The helper that the backend calls for an addition with carry of 8, 32 or 64 bits, given operands of
-- 64 bits and a carry, reports the flags of the sum of the operands' low bits and the carry's lowest
-- bit.
pub update_adc_flags_lem :
    (w : Width) (rflags lhs rhs carry : ℕ)
    → w ≢ i16
    → lhs ≤ u64_max
    → rhs ≤ u64_max
    → SumFlags
        (top_of w)
        rflags
        (low w lhs)
        (low w rhs)
        (carry % 2)
        (update_adc_flags w rflags lhs rhs carry)
unfolding update_adc_flags
update_adc_flags_lem i8 rflags lhs rhs carry width l r = rw (digit8 carry) (
    narrow_sum rflags 7 8 (u8 lhs) (u8 rhs) (carry % 2) refl (omega arith) (omega arith)
      (omega arith) 0xff refl)
update_adc_flags_lem i16 rflags lhs rhs carry width l r = absurd (width refl)
update_adc_flags_lem i32 rflags lhs rhs carry width l r = rw (digit32 carry) (
    narrow_sum rflags 31 0x800_0000 (u32 lhs) (u32 rhs) (carry % 2) refl (omega arith) (omega arith)
      (omega arith) u32_max refl)
update_adc_flags_lem i64 rflags lhs rhs carry width l r =
    rw (low-all lhs l, low-all rhs r) (adc64 rflags lhs rhs carry l r)

sbb64 :
    (rflags lhs rhs borrow : ℕ)
    → lhs ≤ u64_max
    → rhs ≤ u64_max
    → DifferenceFlags 63 rflags lhs rhs (borrow % 2) (update_sbb_flags64 rflags lhs rhs borrow)
unfolding update_sbb_flags64
sbb64 rflags lhs rhs borrow l r =
    rw (carry-digit borrow, twice)
      (conditions-Reports rflags (ground arith)
        (difference-adjusts 63 lhs rhs (borrow % 2) (omega arith) (omega arith) (omega arith)
          (2 ^ 59) refl)
        (sign-shift 63 (difference_of 63 lhs rhs (borrow % 2)) (omega arith))
        (overflow-shift 63 lhs rhs (difference_of 63 lhs rhs (borrow % 2)) (omega arith)
            (omega arith) (omega arith)
          ∙ difference-overflows 63 lhs rhs (borrow % 2) (omega arith) (omega arith) (omega arith)))
  where
    twice :
        u64 (lhs + 0x1_0000_0000_0000_0000 - u64 (rhs + borrow % 2))
        ≡ difference_of 63 lhs rhs (borrow % 2)
    twice = omega arith

-- The helper that the backend calls for a subtraction with borrow, given operands of 64 bits and a
-- borrow, reports the flags of the difference of the operands' low bits less the borrow's lowest bit.
pub update_sbb_flags_lem :
    (w : Width) (rflags lhs rhs borrow : ℕ)
    → lhs ≤ u64_max
    → rhs ≤ u64_max
    → DifferenceFlags
        (top_of w)
        rflags
        (low w lhs)
        (low w rhs)
        (borrow % 2)
        (update_sbb_flags w rflags lhs rhs borrow)
unfolding update_sbb_flags
update_sbb_flags_lem i8 rflags lhs rhs borrow l r = rw (digit8 borrow) (
    narrow_difference rflags 7 8 (u8 lhs) (u8 rhs) (borrow % 2) refl (omega arith) (omega arith)
      (omega arith))
update_sbb_flags_lem i16 rflags lhs rhs borrow l r =
    rw (digit16 borrow, once)
      (narrow_difference rflags 15 2048 (u16 lhs) (u16 rhs) (borrow % 2) refl (omega arith)
        (omega arith) (omega arith))
  where
    once :
        u16 (u32 (u16 lhs + 0x1_0000_0000 - (u16 rhs + borrow % 2)))
        ≡ difference_of 15 (u16 lhs) (u16 rhs) (borrow % 2)
    once = omega arith
update_sbb_flags_lem i32 rflags lhs rhs borrow l r =
    rw (digit32 borrow, once)
      (narrow_difference rflags 31 0x800_0000 (u32 lhs) (u32 rhs) (borrow % 2) refl (omega arith)
        (omega arith) (omega arith))
  where
    once :
        u32 (u64 (u32 lhs + 0x1_0000_0000_0000_0000 - (u32 rhs + borrow % 2)))
        ≡ difference_of 31 (u32 lhs) (u32 rhs) (borrow % 2)
    once = omega arith
update_sbb_flags_lem i64 rflags lhs rhs borrow l r =
    rw (low-all lhs l, low-all rhs r) (sbb64 rflags lhs rhs borrow l r)
