-- ===== src/Flags/Shift.antt =====
-- The flags of shifts and rotates (src/dbt/FlagHelpers.cpp). A count of zero changes no flag.
use rosa.Prelude.{
  ℕ, ◌-◌, ◌/◌, ◌%◌, ◌^◌, bit_and, bit_or, bit_xor, ◌&&◌, [], ◌∷◌, ltb, ◌==◌, if◌then◌else◌, u32,
}
use rosa.Flags.{
  flag_carry, flag_parity, flag_zero, flag_sign, flag_overflow, u8, u16, nonzero, even_parity,
  clear, asserts,
}

-- flagCarry | flagParity | flagZero | flagSign, and flagOverflow for a count of one.
abbrev pub replaced_flags : ℕ → ℕ
replaced_flags count =
    let replaced = bit_or (bit_or (bit_or flag_carry flag_parity) flag_zero) flag_sign in
    if count == 1 then bit_or replaced flag_overflow else replaced

-- flagCarry, and flagOverflow for a count of one.
abbrev pub rotated_flags : ℕ → ℕ
rotated_flags count = if count == 1 then bit_or flag_carry flag_overflow else flag_carry

unfoldable pub update_shift_left_flags64 : (rflags lhs result unmasked_count : ℕ) → ℕ
update_shift_left_flags64 rflags lhs result unmasked_count =
    let count = u8 (bit_and unmasked_count 0x3f) in
    if count == 0
    then rflags
    else (let carry = bit_and (lhs / 2 ^ (64 - count)) 1 in
        asserts
          ((even_parity result, flag_parity)
            ∷ (result == 0, flag_zero)
            ∷ (nonzero (result / 2 ^ 63), flag_sign)
            ∷ (count == 1 && nonzero (bit_xor (bit_and (result / 2 ^ 63) 1) carry), flag_overflow)
            ∷ [])
          (bit_or (clear rflags (replaced_flags count)) carry))

unfoldable pub update_shift_left_flags32 : (rflags lhs_value result_value unmasked_count : ℕ) → ℕ
update_shift_left_flags32 rflags lhs_value result_value unmasked_count =
    let count = u8 (bit_and unmasked_count 0x1f) in
    if count == 0
    then rflags
    else (let lhs = u32 lhs_value in
        let result = u32 result_value in
        let carry = bit_and (lhs / 2 ^ (32 - count)) 1 in
        asserts
          ((even_parity result, flag_parity)
            ∷ (result == 0, flag_zero)
            ∷ (nonzero (result / 2 ^ 31), flag_sign)
            ∷ (count == 1 && nonzero (bit_xor (bit_and (result / 2 ^ 31) 1) carry), flag_overflow)
            ∷ [])
          (bit_or (clear rflags (replaced_flags count)) carry))

-- A count of 8 or more keeps the carry.
unfoldable pub update_shift_left_flags8 : (rflags lhs_value result_value unmasked_count : ℕ) → ℕ
update_shift_left_flags8 rflags lhs_value result_value unmasked_count =
    let count = u8 (bit_and unmasked_count 0x1f) in
    if count == 0
    then rflags
    else (let lhs = u8 lhs_value in
        let result = u8 result_value in
        let parity_zero_sign = bit_or (bit_or flag_parity flag_zero) flag_sign in
        let with_carry =
          if ltb count 8 then bit_or parity_zero_sign flag_carry else parity_zero_sign in
        let replaced = if count == 1 then bit_or with_carry flag_overflow else with_carry in
        let carry = if ltb count 8 then bit_and (lhs / 2 ^ (8 - count)) 1 else 0 in
        let flags = clear rflags replaced in
        asserts
          ((even_parity result, flag_parity)
            ∷ (result == 0, flag_zero)
            ∷ (nonzero (result / 2 ^ 7), flag_sign)
            ∷ (count == 1 && nonzero (bit_xor (bit_and (result / 2 ^ 7) 1) carry), flag_overflow)
            ∷ [])
          (if ltb count 8 then bit_or flags carry else flags))

unfoldable pub update_rotate_left_flags16 : (rflags result_value unmasked_count : ℕ) → ℕ
update_rotate_left_flags16 rflags result_value unmasked_count =
    let count = u8 (bit_and unmasked_count 0x1f) in
    let effective_count = u8 (count % 16) in
    if effective_count == 0
    then rflags
    else (let result = u16 result_value in
        let carry = bit_and result 1 in
        asserts
          ((
            effective_count == 1 && nonzero (bit_xor (bit_and (result / 2 ^ 15) 1) carry),
            flag_overflow,
          )
            ∷ [])
          (bit_or (clear rflags (rotated_flags effective_count)) carry))

unfoldable pub update_rotate_left_flags32 : (rflags result_value unmasked_count : ℕ) → ℕ
update_rotate_left_flags32 rflags result_value unmasked_count =
    let count = u8 (bit_and unmasked_count 0x1f) in
    if count == 0
    then rflags
    else (let result = u32 result_value in
        let carry = bit_and result 1 in
        asserts
          ((count == 1 && nonzero (bit_xor (bit_and (result / 2 ^ 31) 1) carry), flag_overflow)
            ∷ [])
          (bit_or (clear rflags (rotated_flags count)) carry))

unfoldable pub update_rotate_left_flags64 : (rflags result unmasked_count : ℕ) → ℕ
update_rotate_left_flags64 rflags result unmasked_count =
    let count = u8 (bit_and unmasked_count 0x3f) in
    if count == 0
    then rflags
    else (let carry = bit_and result 1 in
        asserts
          ((count == 1 && nonzero (bit_xor (bit_and (result / 2 ^ 63) 1) carry), flag_overflow)
            ∷ [])
          (bit_or (clear rflags (rotated_flags count)) carry))

unfoldable pub update_rotate_right_flags64 : (rflags result unmasked_count : ℕ) → ℕ
update_rotate_right_flags64 rflags result unmasked_count =
    let count = u8 (bit_and unmasked_count 0x3f) in
    if count == 0
    then rflags
    else (asserts
        ((
          count == 1 && nonzero (bit_and (bit_xor (result / 2 ^ 63) (result / 2 ^ 62)) 1),
          flag_overflow,
        )
          ∷ [])
        (bit_or (clear rflags (rotated_flags count)) (result / 2 ^ 63)))

unfoldable pub update_rotate_right_flags32 : (rflags result_value unmasked_count : ℕ) → ℕ
update_rotate_right_flags32 rflags result_value unmasked_count =
    let count = u8 (bit_and unmasked_count 0x1f) in
    if count == 0
    then rflags
    else (let result = u32 result_value in
        asserts
          ((
            count == 1 && nonzero (bit_and (bit_xor (result / 2 ^ 31) (result / 2 ^ 30)) 1),
            flag_overflow,
          )
            ∷ [])
          (bit_or (clear rflags (rotated_flags count)) (result / 2 ^ 31)))

unfoldable pub update_shift_right_flags8 : (rflags lhs_value result_value unmasked_count : ℕ) → ℕ
update_shift_right_flags8 rflags lhs_value result_value unmasked_count =
    let count = u8 (bit_and unmasked_count 0x1f) in
    if count == 0
    then rflags
    else (let lhs = u8 lhs_value in
        let result = u8 result_value in
        asserts
          ((even_parity result, flag_parity)
            ∷ (result == 0, flag_zero)
            ∷ (nonzero (result / 2 ^ 7), flag_sign)
            ∷ (count == 1 && nonzero (lhs / 2 ^ 7), flag_overflow)
            ∷ [])
          (bit_or (clear rflags (replaced_flags count)) (bit_and (lhs / 2 ^ (count - 1)) 1)))

unfoldable pub update_shift_right_flags32 : (rflags lhs_value result_value unmasked_count : ℕ) → ℕ
update_shift_right_flags32 rflags lhs_value result_value unmasked_count =
    let count = u8 (bit_and unmasked_count 0x1f) in
    if count == 0
    then rflags
    else (let lhs = u32 lhs_value in
        let result = u32 result_value in
        asserts
          ((even_parity result, flag_parity)
            ∷ (result == 0, flag_zero)
            ∷ (nonzero (result / 2 ^ 31), flag_sign)
            ∷ (count == 1 && nonzero (lhs / 2 ^ 31), flag_overflow)
            ∷ [])
          (bit_or (clear rflags (replaced_flags count)) (bit_and (lhs / 2 ^ (count - 1)) 1)))

unfoldable pub update_shift_right_flags64 : (rflags lhs result unmasked_count : ℕ) → ℕ
update_shift_right_flags64 rflags lhs result unmasked_count =
    let count = u8 (bit_and unmasked_count 0x3f) in
    if count == 0
    then rflags
    else (asserts
        ((even_parity result, flag_parity)
          ∷ (result == 0, flag_zero)
          ∷ (nonzero (result / 2 ^ 63), flag_sign)
          ∷ (count == 1 && nonzero (lhs / 2 ^ 63), flag_overflow)
          ∷ [])
        (bit_or (clear rflags (replaced_flags count)) (bit_and (lhs / 2 ^ (count - 1)) 1)))

unfoldable pub update_shift_right_arithmetic_flags32 :
    (rflags lhs_value result_value unmasked_count : ℕ) → ℕ
update_shift_right_arithmetic_flags32 rflags lhs_value result_value unmasked_count =
    let count = u8 (bit_and unmasked_count 0x1f) in
    if count == 0
    then rflags
    else (let lhs = u32 lhs_value in
        let result = u32 result_value in
        asserts
          ((even_parity result, flag_parity)
            ∷ (result == 0, flag_zero)
            ∷ (nonzero (result / 2 ^ 31), flag_sign)
            ∷ [])
          (bit_or (clear rflags (replaced_flags count)) (bit_and (lhs / 2 ^ (count - 1)) 1)))

unfoldable pub update_shift_right_arithmetic_flags64 : (rflags lhs result unmasked_count : ℕ) → ℕ
update_shift_right_arithmetic_flags64 rflags lhs result unmasked_count =
    let count = u8 (bit_and unmasked_count 0x3f) in
    if count == 0
    then rflags
    else (asserts
        ((even_parity result, flag_parity)
          ∷ (result == 0, flag_zero)
          ∷ (nonzero (result / 2 ^ 63), flag_sign)
          ∷ [])
        (bit_or (clear rflags (replaced_flags count)) (bit_and (lhs / 2 ^ (count - 1)) 1)))

unfoldable pub update_shift_right_double_flags64 : (rflags original result unmasked_count : ℕ) → ℕ
update_shift_right_double_flags64 rflags original result unmasked_count =
    let count = u8 (bit_and unmasked_count 0x3f) in
    if count == 0
    then rflags
    else (asserts
        ((even_parity result, flag_parity)
          ∷ (result == 0, flag_zero)
          ∷ (nonzero (result / 2 ^ 63), flag_sign)
          ∷ (count == 1 && nonzero (bit_and (bit_xor original result / 2 ^ 63) 1), flag_overflow)
          ∷ [])
        (bit_or (clear rflags (replaced_flags count)) (bit_and (original / 2 ^ (count - 1)) 1)))
