-- ===== src/Flags/BitTests.antt =====
-- The helpers of bit tests (src/dbt/FlagHelpers.cpp).
use rosa.Prelude.{
  ℕ, ◌+◌, ◌/◌, ◌%◌, ◌^◌, ◌≤◌, ◌<◌, min, max, bit_and, bit_or, ◌≡◌, refl, Bool, true, not, ◌&&◌,
  ◌||◌, arith, leb, ◌==◌, u64_max,
}
use rosa.Prelude.Bits.Laws.{bit, bit-zero, bit-bit_and, bit-bit_or, bit-le-one, bit_and_low}
use rosa.Flags.{clear, flag_carry, flag_reserved_one, u8}
use rosa.Flags.Reports.{bit-clear, all_below, all_below_sound}
use rosa.Flags.Result.{update_bit_test_flags32, update_bit_test_flags64}

-- The carry is the tested bit, the reserved bit is set, and the others are those of rflags.
pub record Tested (rflags tested flags : ℕ) : Type 0 where
  pub carry_flag : bit 0 flags ≡ tested
  pub reserved_one : bit 1 flags ≡ 1
  pub kept : (k : ℕ) → 2 ≤ k → k < 64 → bit k flags ≡ bit k rflags

abbrev untouched : ℕ → Bool
untouched k =
    not (leb 2 k) || (bit k flag_carry == 0 && bit k u64_max == 1 && bit k flag_reserved_one == 0)

untouched_table : all_below 64 untouched ≡ true
unfolding all_below
untouched_table = refl

module _ (rflags value : ℕ) where
  flag_at :
      (k : ℕ)
      → bit k (bit_or (clear rflags flag_carry) (bit_and value 1))
        ≡ max
            (max
              (min (bit k rflags) ((bit k flag_carry + bit k u64_max) % 2))
              (bit k flag_reserved_one))
            (min (bit k value) (bit k 1))
  flag_at k = omega (
    arith,
    bit-bit_or k (clear rflags flag_carry) (bit_and value 1),
    bit-bit_and k value 1,
    bit-clear k rflags flag_carry,
  )

  kept_bits :
      (k : ℕ)
      → 2 ≤ k
      → k < 64
      → bit k (bit_or (clear rflags flag_carry) (bit_and value 1)) ≡ bit k rflags
  kept_bits k least below =
      let known : untouched k ≡ true = all_below_sound 64 untouched k untouched_table below in
      ground (arith, flag_at k, known, bit-le-one k rflags, bit-le-one k value)

  carried : Tested rflags (value % 2) (bit_or (clear rflags flag_carry) (bit_and value 1))
  carried = record {
    carry_flag = omega (arith, flag_at 0, bit-zero value, bit-le-one 0 rflags);
    reserved_one = omega (arith, flag_at 1, bit-le-one 1 value);
    kept = kept_bits;
  }

-- The helpers of bit tests set the carry to the bit of the value at the index modulo the width, 32 or 64, set
-- the reserved bit, and keep the other bits of rflags.
pub update_bit_test_flags_lem :
    (rflags value index : ℕ)
    → Tested rflags (bit (index % 32) value) (update_bit_test_flags32 rflags value index)
      × Tested rflags (bit (index % 64) value) (update_bit_test_flags64 rflags value index)
unfolding update_bit_test_flags32 update_bit_test_flags64
update_bit_test_flags_lem rflags value index =
    let five : u8 (bit_and index 0x1f) ≡ index % 32 = omega (arith, bit_and_low 5 index) in
    let six : u8 (bit_and index 0x3f) ≡ index % 64 = omega (arith, bit_and_low 6 index) in
    (
      rw five (carried rflags (value / 2 ^ (index % 32))),
      rw six (carried rflags (value / 2 ^ (index % 64))),
    )
