-- ===== src/Flags/Subtract.antt =====
-- The flags of subtractions (src/dbt/FlagHelpers.cpp).
use rosa.Prelude.{ℕ, ◌+◌, ◌-◌, ◌/◌, ◌^◌, bit_and, bit_xor, ◌||◌, ltb, ◌==◌, u32, u64}
use rosa.Flags.{
  arithmetic_flag_mask, u8, u16, nonzero, even_parity, clear, asserts, status, adjusts,
}

unfoldable pub update_sbb_flags8 : (rflags lhs_value rhs_value borrow_value : ℕ) → ℕ
update_sbb_flags8 rflags lhs_value rhs_value borrow_value =
    let lhs = u8 lhs_value in
    let rhs = u8 rhs_value in
    let borrow = u8 (bit_and borrow_value 1) in
    let wide_subtrahend = rhs + borrow in
    let result = u8 (lhs + 0x100 - wide_subtrahend) in
    asserts
      (status (ltb lhs wide_subtrahend) (even_parity result) (adjusts lhs rhs result) (result == 0)
        (nonzero (bit_and result 0x80))
        (nonzero (bit_and (bit_and (bit_xor lhs rhs) (bit_xor lhs result)) 0x80)))
      (clear rflags arithmetic_flag_mask)

unfoldable pub update_sbb_flags16 : (rflags lhs_value rhs_value borrow_value : ℕ) → ℕ
update_sbb_flags16 rflags lhs_value rhs_value borrow_value =
    let lhs = u16 lhs_value in
    let rhs = u16 rhs_value in
    let borrow = u16 (bit_and borrow_value 1) in
    let wide_subtrahend = rhs + borrow in
    let result = u16 (u32 (lhs + 0x1_0000_0000 - wide_subtrahend)) in
    asserts
      (status (ltb lhs wide_subtrahend) (even_parity result) (adjusts lhs rhs result) (result == 0)
        (nonzero (bit_and result 0x8000))
        (nonzero (bit_and (bit_and (bit_xor lhs rhs) (bit_xor lhs result)) 0x8000)))
      (clear rflags arithmetic_flag_mask)

unfoldable pub update_sbb_flags32 : (rflags lhs_value rhs_value borrow_value : ℕ) → ℕ
update_sbb_flags32 rflags lhs_value rhs_value borrow_value =
    let lhs = u32 lhs_value in
    let rhs = u32 rhs_value in
    let borrow = u32 (bit_and borrow_value 1) in
    let wide_subtrahend = rhs + borrow in
    let result = u32 (u64 (lhs + 0x1_0000_0000_0000_0000 - wide_subtrahend)) in
    asserts
      (status (ltb lhs wide_subtrahend) (even_parity result) (adjusts lhs rhs result) (result == 0)
        (nonzero (bit_and result 0x8000_0000))
        (nonzero (bit_and (bit_and (bit_xor lhs rhs) (bit_xor lhs result)) 0x8000_0000)))
      (clear rflags arithmetic_flag_mask)

unfoldable pub update_sbb_flags64 : (rflags lhs rhs borrow_value : ℕ) → ℕ
update_sbb_flags64 rflags lhs rhs borrow_value =
    let borrow = bit_and borrow_value 1 in
    let subtrahend = u64 (rhs + borrow) in
    let result = u64 (lhs + 0x1_0000_0000_0000_0000 - subtrahend) in
    asserts
      (status (ltb subtrahend rhs || ltb lhs subtrahend) (even_parity result)
        (adjusts lhs rhs result) (result == 0) (nonzero (result / 2 ^ 63))
        (nonzero (bit_and (bit_xor lhs rhs) (bit_xor lhs result) / 2 ^ 63)))
      (clear rflags arithmetic_flag_mask)

unfoldable pub update_sub_flags64 : (rflags lhs rhs result : ℕ) → ℕ
update_sub_flags64 rflags lhs rhs result =
    asserts
      (status (ltb lhs rhs) (even_parity result) (adjusts lhs rhs result) (result == 0)
        (nonzero (result / 2 ^ 63))
        (nonzero (bit_and (bit_xor lhs rhs) (bit_xor lhs result) / 2 ^ 63)))
      (clear rflags arithmetic_flag_mask)

unfoldable pub update_sub_flags8 : (rflags lhs_value rhs_value result_value : ℕ) → ℕ
update_sub_flags8 rflags lhs_value rhs_value result_value =
    let lhs = u8 lhs_value in
    let rhs = u8 rhs_value in
    let result = u8 result_value in
    asserts
      (status (ltb lhs rhs) (even_parity result) (adjusts lhs rhs result) (result == 0)
        (nonzero (result / 2 ^ 7))
        (nonzero (bit_and (bit_xor lhs rhs) (bit_xor lhs result) / 2 ^ 7)))
      (clear rflags arithmetic_flag_mask)

unfoldable pub update_sub_flags16 : (rflags lhs_value rhs_value result_value : ℕ) → ℕ
update_sub_flags16 rflags lhs_value rhs_value result_value =
    let lhs = u16 lhs_value in
    let rhs = u16 rhs_value in
    let result = u16 result_value in
    asserts
      (status (ltb lhs rhs) (even_parity result) (adjusts lhs rhs result) (result == 0)
        (nonzero (result / 2 ^ 15))
        (nonzero (bit_and (bit_xor lhs rhs) (bit_xor lhs result) / 2 ^ 15)))
      (clear rflags arithmetic_flag_mask)

unfoldable pub update_sub_flags32 : (rflags lhs_value rhs_value result_value : ℕ) → ℕ
update_sub_flags32 rflags lhs_value rhs_value result_value =
    let lhs = u32 lhs_value in
    let rhs = u32 rhs_value in
    let result = u32 result_value in
    asserts
      (status (ltb lhs rhs) (even_parity result) (adjusts lhs rhs result) (result == 0)
        (nonzero (result / 2 ^ 31))
        (nonzero (bit_and (bit_xor lhs rhs) (bit_xor lhs result) / 2 ^ 31)))
      (clear rflags arithmetic_flag_mask)
