-- ===== src/Flags/Counts.antt =====
-- The helpers of increments and decrements, which keep the carry (src/dbt/FlagSemantics.h).
use rosa.Prelude.{
  ℕ, suc, ◌+◌, ◌-◌, ◌*◌, ◌%◌, ◌^◌, ◌≤◌, ◌<◌, min, max, bit_and, bit_xor, ◌≡◌, refl, ap, ◌∙◌, Bool,
  true, not, ◌&&◌, ◌||◌, List, [], ◌∷◌, arith, ltb, leb, ◌==◌, u64_max,
}
use rosa.Prelude.Bits.Laws.{bit, bit-le-one}
use rosa.Flags.{
  nonzero, complement64, even_parity, clear, asserts, arithmetic_flag_mask, flag_carry, flag_parity,
  flag_auxiliary_carry, flag_zero, flag_sign, flag_overflow, flag_reserved_one,
}
use rosa.Flags.Reports.{
  Reports, bit-asserts, bit-clear, asserted, is_kept, all_below, all_below_sound, spread, as_bit,
}
use rosa.Flags.Sums.{sign-mask}
use rosa.Flags.Meaning.{
  signed_sum_fits, signed_difference_fits, sum_of, difference_of, sum_of-lt, difference_of-lt,
  sum-adjusts, difference-adjusts,
}
use rosa.Flags.Select.{Width, i8, i16, i32, i64, top_of, low}
use rosa.Flags.Result.{update_inc_flags, update_dec_flags}

abbrev counting_mask : ℕ
counting_mask = bit_and arithmetic_flag_mask (complement64 flag_carry)

abbrev untouched : ℕ → Bool
untouched k =
    not (is_kept k)
    || (bit k counting_mask == 0
        && bit k u64_max == 1
        && bit k flag_reserved_one == 0
        && bit k 1 == 0
        && bit k 4 == 0
        && bit k 0x10 == 0
        && bit k 0x40 == 0
        && bit k 0x80 == 0
        && bit k 0x800 == 0)

untouched_table : all_below 64 untouched ≡ true
unfolding all_below
untouched_table = refl

module _ (rflags : ℕ) (parity auxiliary is_zero sign overflow : Bool) where
  abbrev assertions : List (Bool × ℕ)
  assertions =
      (parity, flag_parity)
      ∷ (auxiliary, flag_auxiliary_carry)
      ∷ (is_zero, flag_zero)
      ∷ (sign, flag_sign)
      ∷ (overflow, flag_overflow)
      ∷ []

  flag_at :
      (k : ℕ)
      → bit k (asserts assertions (clear rflags counting_mask))
        ≡ max
            (max
              (min (bit k rflags) ((bit k counting_mask + bit k u64_max) % 2))
              (bit k flag_reserved_one))
            (asserted k assertions)
  flag_at k =
      bit-asserts k assertions (clear rflags counting_mask)
      ∙ ap (λ (t : ℕ). max t (asserted k assertions)) (bit-clear k rflags counting_mask)

  kept_bits :
      (k : ℕ)
      → k < 64
      → is_kept k ≡ true
      → bit k (asserts assertions (clear rflags counting_mask)) ≡ bit k rflags
  kept_bits k below keep =
      let (m, u, r, a, b, c, d, e, f) =
        spread (is_kept k) (bit k counting_mask) (bit k u64_max) (bit k flag_reserved_one) (bit k 1)
          (bit k 4) (bit k 0x10) (bit k 0x40) (bit k 0x80) (bit k 0x800)
          (all_below_sound 64 untouched k untouched_table below) keep in
      flag_at k ∙ rw (m, u, r, b, c, d, e, f) (omega (arith, bit-le-one k rflags))

  bit_of : (b : ℕ) → b ≤ 1 → b ≡ as_bit (b == 1)
  bit_of b l = ground arith

  -- The carry is that of rflags.
  counts-Reports :
      Reports rflags
        (bit 0 rflags == 1)
        parity
        auxiliary
        is_zero
        sign
        overflow
        (asserts assertions (clear rflags counting_mask))
  counts-Reports = record {
    carry_flag =
        omega (arith, flag_at 0, bit-le-one 0 rflags) ∙ bit_of (bit 0 rflags) (bit-le-one 0 rflags);
    reserved_one = omega (arith, flag_at 1);
    parity_flag = omega (arith, flag_at 2);
    auxiliary_flag = omega (arith, flag_at 4);
    zero_flag = omega (arith, flag_at 6);
    sign_flag = omega (arith, flag_at 7);
    overflow_flag = omega (arith, flag_at 11);
    kept = kept_bits;
  }

-- The flags of number + 1 and of number - 1, of top + 1 bits: the auxiliary carry of the low four bits, the
-- result's parity, zero and sign, whether the signed result does not fit, and the carry of rflags.
abbrev pub IncrementFlags : (top rflags number flags : ℕ) → Type 0
IncrementFlags top rflags number =
    Reports rflags (bit 0 rflags == 1) (even_parity (sum_of top number 1 0))
      (leb 16 (number % 16 + 1 % 16 + 0)) (sum_of top number 1 0 == 0)
      (leb (2 ^ top) (sum_of top number 1 0)) (not (signed_sum_fits top number 1 0))

abbrev pub DecrementFlags : (top rflags number flags : ℕ) → Type 0
DecrementFlags top rflags number =
    Reports rflags (bit 0 rflags == 1) (even_parity (difference_of top number 1 0))
      (ltb (number % 16) (1 % 16 + 0)) (difference_of top number 1 0 == 0)
      (leb (2 ^ top) (difference_of top number 1 0)) (not (signed_difference_fits top number 1 0))

module _ (rflags top k number result : ℕ) (wide : 2 ^ top ≡ 16 * suc k)
    (n : number < 2 * 2 ^ top) where
  increment_overflows : (number == 2 ^ top - 1) ≡ not (signed_sum_fits top number 1 0)
  increment_overflows = ground (arith, wide)

  decrement_overflows : (number == 2 ^ top) ≡ not (signed_difference_fits top number 1 0)
  decrement_overflows = ground (arith, wide)

  incremented :
      result ≡ sum_of top number 1 0
      → IncrementFlags top rflags number (
          asserts
            (assertions rflags
              (even_parity result)
              (nonzero (bit_and (bit_xor (bit_xor number 1) result) 0x10))
              (result == 0)
              (nonzero (bit_and result (2 ^ top)))
              (number == 2 ^ top - 1))
            (clear rflags counting_mask))
  incremented is =
      rw
        (
          is,
          sum-adjusts top number 1 0 n (omega (arith, wide)) (omega arith) (suc k) wide,
          sign-mask top (sum_of top number 1 0) (sum_of-lt top number 1 0),
          increment_overflows,
        )
        (counts-Reports rflags _ _ _ _ _)

  decremented :
      result ≡ difference_of top number 1 0
      → DecrementFlags top rflags number (
          asserts
            (assertions rflags
              (even_parity result)
              (nonzero (bit_and (bit_xor (bit_xor number 1) result) 0x10))
              (result == 0)
              (nonzero (bit_and result (2 ^ top)))
              (number == 2 ^ top))
            (clear rflags counting_mask))
  decremented is =
      rw
        (
          is,
          difference-adjusts top number 1 0 n (omega (arith, wide)) (omega arith) (suc k) wide,
          sign-mask top (difference_of top number 1 0) (difference_of-lt top number 1 0),
          decrement_overflows,
        )
        (counts-Reports rflags _ _ _ _ _)

-- The helper of an increment, given the number before and a result whose low bits are those of the
-- number after, reports the flags of number + 1 at the width: overflow exactly when the signed result
-- does not fit, auxiliary carry exactly when that of the low four bits does not fit four bits, zero, sign and
-- parity those of the result; the carry and all other bits of rflags stay, and the reserved bit is set.
pub update_inc_flags_lem :
    (w : Width) (rflags original result : ℕ)
    → low w result ≡ sum_of (top_of w) (low w original) 1 0
    → IncrementFlags
        (top_of w)
        rflags
        (low w original)
        (update_inc_flags (suc (top_of w)) rflags original result)
unfolding update_inc_flags
update_inc_flags_lem i8 rflags original result is =
    incremented rflags 7 7 (original % 2 ^ 8) (result % 2 ^ 8) refl (omega arith) is
update_inc_flags_lem i16 rflags original result is =
    incremented rflags 15 2047 (original % 2 ^ 16) (result % 2 ^ 16) refl (omega arith) is
update_inc_flags_lem i32 rflags original result is =
    incremented rflags 31 0x7ff_ffff (original % 2 ^ 32) (result % 2 ^ 32) refl (omega arith) is
update_inc_flags_lem i64 rflags original result is =
    incremented rflags 63 (2 ^ 59 - 1) (original % 2 ^ 64) (result % 2 ^ 64) refl (omega arith) is

-- The helper of a decrement, given the number before and a result whose low bits are those of the
-- number after, reports the flags of number - 1 at the width: overflow exactly when the signed result
-- does not fit, auxiliary carry exactly when the low four bits are 0, zero, sign and parity those of the
-- result; the carry and all other bits of rflags stay, and the reserved bit is set.
pub update_dec_flags_lem :
    (w : Width) (rflags original result : ℕ)
    → low w result ≡ difference_of (top_of w) (low w original) 1 0
    → DecrementFlags
        (top_of w)
        rflags
        (low w original)
        (update_dec_flags (suc (top_of w)) rflags original result)
unfolding update_dec_flags
update_dec_flags_lem i8 rflags original result is =
    decremented rflags 7 7 (original % 2 ^ 8) (result % 2 ^ 8) refl (omega arith) is
update_dec_flags_lem i16 rflags original result is =
    decremented rflags 15 2047 (original % 2 ^ 16) (result % 2 ^ 16) refl (omega arith) is
update_dec_flags_lem i32 rflags original result is =
    decremented rflags 31 0x7ff_ffff (original % 2 ^ 32) (result % 2 ^ 32) refl (omega arith) is
update_dec_flags_lem i64 rflags original result is =
    decremented rflags 63 (2 ^ 59 - 1) (original % 2 ^ 64) (result % 2 ^ 64) refl (omega arith) is
