-- ===== src/Flags/Result.antt =====
-- The flags of logical operations, increments, multiplications and bit tests (src/dbt/FlagHelpers.cpp and
-- src/dbt/FlagSemantics.h).
use rosa.Prelude.{
  ℕ, ◌-◌, ◌*◌, ◌/◌, ◌%◌, ◌^◌, bit_and, bit_or, bit_xor, Bool, [], ◌∷◌, ltb, leb, ◌==◌,
  if◌then◌else◌, u32,
}
use rosa.Flags.{
  flag_auxiliary_carry, flag_carry, flag_parity, flag_zero, flag_sign, flag_overflow,
  arithmetic_flag_mask, u8, u16, complement64, nonzero, even_parity, clear, asserts,
}

unfoldable pub update_logic_flags64 : (rflags result : ℕ) → ℕ
update_logic_flags64 rflags result =
    asserts
      ((even_parity result, flag_parity)
        ∷ (result == 0, flag_zero)
        ∷ (nonzero (result / 2 ^ 63), flag_sign)
        ∷ [])
      (clear rflags arithmetic_flag_mask)

unfoldable pub update_logic_flags32 : (rflags result_value : ℕ) → ℕ
update_logic_flags32 rflags result_value =
    let result = u32 result_value in
    asserts
      ((even_parity result, flag_parity)
        ∷ (result == 0, flag_zero)
        ∷ (nonzero (result / 2 ^ 31), flag_sign)
        ∷ [])
      (clear rflags arithmetic_flag_mask)

unfoldable pub update_logic_flags16 : (rflags result_value : ℕ) → ℕ
update_logic_flags16 rflags result_value =
    let result = u16 result_value in
    asserts
      ((even_parity result, flag_parity)
        ∷ (result == 0, flag_zero)
        ∷ (nonzero (result / 2 ^ 15), flag_sign)
        ∷ [])
      (clear rflags arithmetic_flag_mask)

unfoldable pub update_logic_flags8 : (rflags result_value : ℕ) → ℕ
update_logic_flags8 rflags result_value =
    let result = u8 result_value in
    asserts
      ((even_parity result, flag_parity)
        ∷ (result == 0, flag_zero)
        ∷ (nonzero (result / 2 ^ 7), flag_sign)
        ∷ [])
      (clear rflags arithmetic_flag_mask)

-- `bits` is sizeof(Value) * 8.
unfoldable pub update_inc_flags : (bits : ℕ) → (rflags original_value result_value : ℕ) → ℕ
update_inc_flags bits rflags original_value result_value =
    let original = original_value % 2 ^ bits in
    let result = result_value % 2 ^ bits in
    let sign_bit = 2 ^ (bits - 1) in
    asserts
      ((even_parity result, flag_parity)
        ∷ (nonzero (bit_and (bit_xor (bit_xor original 1) result) 0x10), flag_auxiliary_carry)
        ∷ (result == 0, flag_zero)
        ∷ (nonzero (bit_and result sign_bit), flag_sign)
        ∷ (original == sign_bit - 1, flag_overflow)
        ∷ [])
      (clear rflags (bit_and arithmetic_flag_mask (complement64 flag_carry)))

-- `bits` is sizeof(Value) * 8.
unfoldable pub update_dec_flags : (bits : ℕ) → (rflags original_value result_value : ℕ) → ℕ
update_dec_flags bits rflags original_value result_value =
    let original = original_value % 2 ^ bits in
    let result = result_value % 2 ^ bits in
    let sign_bit = 2 ^ (bits - 1) in
    asserts
      ((even_parity result, flag_parity)
        ∷ (nonzero (bit_and (bit_xor (bit_xor original 1) result) 0x10), flag_auxiliary_carry)
        ∷ (result == 0, flag_zero)
        ∷ (nonzero (bit_and result sign_bit), flag_sign)
        ∷ (original == sign_bit, flag_overflow)
        ∷ [])
      (clear rflags (bit_and arithmetic_flag_mask (complement64 flag_carry)))

-- The instances of the two templates.
unfoldable pub update_inc_flags32 : (rflags original result : ℕ) → ℕ
unfolding update_inc_flags
update_inc_flags32 rflags original result = update_inc_flags 32 rflags original result

unfoldable pub update_inc_flags16 : (rflags original result : ℕ) → ℕ
unfolding update_inc_flags
update_inc_flags16 rflags original result = update_inc_flags 16 rflags original result

unfoldable pub update_inc_flags8 : (rflags original result : ℕ) → ℕ
unfolding update_inc_flags
update_inc_flags8 rflags original result = update_inc_flags 8 rflags original result

unfoldable pub update_inc_flags64 : (rflags original result : ℕ) → ℕ
unfolding update_inc_flags
update_inc_flags64 rflags original result = update_inc_flags 64 rflags original result

unfoldable pub update_dec_flags32 : (rflags original result : ℕ) → ℕ
unfolding update_dec_flags
update_dec_flags32 rflags original result = update_dec_flags 32 rflags original result

unfoldable pub update_dec_flags16 : (rflags original result : ℕ) → ℕ
unfolding update_dec_flags
update_dec_flags16 rflags original result = update_dec_flags 16 rflags original result

unfoldable pub update_dec_flags8 : (rflags original result : ℕ) → ℕ
unfolding update_dec_flags
update_dec_flags8 rflags original result = update_dec_flags 8 rflags original result

unfoldable pub update_dec_flags64 : (rflags original result : ℕ) → ℕ
unfolding update_dec_flags
update_dec_flags64 rflags original result = update_dec_flags 64 rflags original result

unfoldable pub update_multiply_flags64 : (rflags high : ℕ) → ℕ
update_multiply_flags64 rflags high =
    asserts ((nonzero high, bit_or flag_carry flag_overflow) ∷ [])
      (clear rflags (bit_or flag_carry flag_overflow))

-- The sign and the magnitude of a bit pattern.
abbrev pub is_negative : (half x : ℕ) → Bool
is_negative half x = leb half x

abbrev pub magnitude : (half x : ℕ) → ℕ
magnitude half x = if is_negative half x then 2 * half - x else x

-- __builtin_mul_overflow: the product of the signed numbers does not fit their type.
abbrev pub mul_overflow : (half lhs rhs : ℕ) → Bool
mul_overflow half lhs rhs =
    let product = magnitude half lhs * magnitude half rhs in
    if is_negative half lhs
    then (if is_negative half rhs then leb half product else ltb half product)
    else (if is_negative half rhs then ltb half product else leb half product)

unfoldable pub update_signed_multiply_flags64 : (rflags lhs rhs : ℕ) → ℕ
update_signed_multiply_flags64 rflags lhs rhs =
    asserts ((mul_overflow 0x8000_0000_0000_0000 lhs rhs, bit_or flag_carry flag_overflow) ∷ [])
      (clear rflags (bit_or flag_carry flag_overflow))

unfoldable pub update_signed_multiply_flags32 : (rflags lhs rhs : ℕ) → ℕ
update_signed_multiply_flags32 rflags lhs rhs =
    asserts ((mul_overflow 0x8000_0000 (u32 lhs) (u32 rhs), bit_or flag_carry flag_overflow) ∷ [])
      (clear rflags (bit_or flag_carry flag_overflow))

unfoldable pub update_bit_test_flags32 : (rflags value unmasked_bit_index : ℕ) → ℕ
update_bit_test_flags32 rflags value unmasked_bit_index =
    let bit_index = u8 (bit_and unmasked_bit_index 0x1f) in
    bit_or (clear rflags flag_carry) (bit_and (value / 2 ^ bit_index) 1)

unfoldable pub update_bit_test_flags64 : (rflags value unmasked_bit_index : ℕ) → ℕ
update_bit_test_flags64 rflags value unmasked_bit_index =
    let bit_index = u8 (bit_and unmasked_bit_index 0x3f) in
    bit_or (clear rflags flag_carry) (bit_and (value / 2 ^ bit_index) 1)
