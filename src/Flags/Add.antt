-- ===== src/Flags/Add.antt =====
-- The flags of additions (src/dbt/FlagHelpers.cpp).
use rosa.Prelude.{
  ℕ, ◌+◌, ◌-◌, ◌*◌, ◌/◌, ◌^◌, bit_and, bit_xor, Bool, ◌||◌, ltb, ◌==◌, if◌then◌else◌, u32, u64,
  u32_max,
}
use rosa.Flags.{
  arithmetic_flag_mask, u8, u16, complement64, complement32, nonzero, even_parity, clear, asserts,
  status, adjusts,
}

unfoldable pub update_add_flags64 : (rflags lhs rhs result : ℕ) → ℕ
update_add_flags64 rflags lhs rhs result =
    asserts
      (status (ltb result lhs) (even_parity result) (adjusts lhs rhs result) (result == 0)
        (nonzero (result / 2 ^ 63))
        (nonzero (bit_and (complement64 (bit_xor lhs rhs)) (bit_xor lhs result) / 2 ^ 63)))
      (clear rflags arithmetic_flag_mask)

unfoldable pub update_add_flags8 : (rflags lhs_value rhs_value result_value : ℕ) → ℕ
update_add_flags8 rflags lhs_value rhs_value result_value =
    let lhs = u8 lhs_value in
    let rhs = u8 rhs_value in
    let result = u8 result_value in
    asserts
      (status (ltb 0xff (lhs + rhs)) (even_parity result) (adjusts lhs rhs result) (result == 0)
        (nonzero (bit_and result 0x80))
        (nonzero (bit_and (bit_and (complement32 (bit_xor lhs rhs)) (bit_xor lhs result)) 0x80)))
      (clear rflags arithmetic_flag_mask)

unfoldable pub update_add_flags16 : (rflags lhs_value rhs_value result_value : ℕ) → ℕ
update_add_flags16 rflags lhs_value rhs_value result_value =
    let lhs = u16 lhs_value in
    let rhs = u16 rhs_value in
    let result = u16 result_value in
    asserts
      (status (ltb 0xffff (lhs + rhs)) (even_parity result) (adjusts lhs rhs result) (result == 0)
        (nonzero (bit_and result 0x8000))
        (nonzero (bit_and (bit_and (complement32 (bit_xor lhs rhs)) (bit_xor lhs result)) 0x8000)))
      (clear rflags arithmetic_flag_mask)

unfoldable pub update_add_flags32 : (rflags lhs_value rhs_value result_value : ℕ) → ℕ
update_add_flags32 rflags lhs_value rhs_value result_value =
    let lhs = u32 lhs_value in
    let rhs = u32 rhs_value in
    let result = u32 result_value in
    asserts
      (status (ltb u32_max (lhs + rhs)) (even_parity result) (adjusts lhs rhs result) (result == 0)
        (nonzero (bit_and result 0x8000_0000))
        (nonzero
          (bit_and (bit_and (complement32 (bit_xor lhs rhs)) (bit_xor lhs result)) 0x8000_0000)))
      (clear rflags arithmetic_flag_mask)

-- (lhs & 0xFU) + (rhs & 0xFU) + carry > 0xFU
abbrev pub adjusts_with_carry : ℕ → ℕ → ℕ → Bool
adjusts_with_carry lhs rhs carry = ltb 0xf (bit_and lhs 0xf + bit_and rhs 0xf + carry)

-- A signed number is kept as itself plus `half`, the half of the type's range; this is that of a bit
-- pattern.
abbrev pub biased : (half x : ℕ) → ℕ
biased half x = if ltb x half then x + half else x - half

-- The sum of the two signed numbers and the carry is above the type's maximum or below its minimum.
abbrev pub leaves_range : (half lhs rhs carry : ℕ) → Bool
leaves_range half lhs rhs carry =
    let signed_result = biased half lhs + biased half rhs + carry in
    ltb (2 * half + (half - 1)) signed_result || ltb signed_result half

unfoldable pub update_adc_flags8 : (rflags lhs_value rhs_value carry_value : ℕ) → ℕ
update_adc_flags8 rflags lhs_value rhs_value carry_value =
    let lhs = u8 lhs_value in
    let rhs = u8 rhs_value in
    let carry = u8 (bit_and carry_value 1) in
    let wide_result = lhs + rhs + carry in
    let result = u8 wide_result in
    asserts
      (status (ltb 0xff wide_result) (even_parity result) (adjusts_with_carry lhs rhs carry)
        (result == 0) (nonzero (bit_and result 0x80)) (leaves_range 0x80 lhs rhs carry))
      (clear rflags arithmetic_flag_mask)

unfoldable pub update_adc_flags32 : (rflags lhs_value rhs_value carry_value : ℕ) → ℕ
update_adc_flags32 rflags lhs_value rhs_value carry_value =
    let lhs = u32 lhs_value in
    let rhs = u32 rhs_value in
    let carry = u32 (bit_and carry_value 1) in
    let wide_result = lhs + rhs + carry in
    let result = u32 wide_result in
    asserts
      (status (ltb u32_max wide_result) (even_parity result) (adjusts_with_carry lhs rhs carry)
        (result == 0) (nonzero (bit_and result 0x8000_0000))
        (leaves_range 0x8000_0000 lhs rhs carry))
      (clear rflags arithmetic_flag_mask)

unfoldable pub update_adc_flags64 : (rflags lhs rhs carry_value : ℕ) → ℕ
update_adc_flags64 rflags lhs rhs carry_value =
    let carry = bit_and carry_value 1 in
    let sum = u64 (lhs + rhs) in
    let result = u64 (sum + carry) in
    asserts
      (status (ltb sum lhs || ltb result sum) (even_parity result)
        (adjusts_with_carry lhs rhs carry) (result == 0) (nonzero (result / 2 ^ 63))
        (nonzero (bit_and (complement64 (bit_xor lhs rhs)) (bit_xor lhs result) / 2 ^ 63)))
      (clear rflags arithmetic_flag_mask)
