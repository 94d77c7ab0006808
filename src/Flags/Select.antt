-- ===== src/Flags/Select.antt =====
-- Which helper the backend calls for an operation of a width (src/arm64/Backend.cpp).
use rosa.Prelude.{ℕ, ◌*◌, ◌%◌, ◌^◌}
use rosa.Flags.Add.{
  update_add_flags8, update_add_flags16, update_add_flags32, update_add_flags64, update_adc_flags8,
  update_adc_flags32, update_adc_flags64,
}
use rosa.Flags.Subtract.{
  update_sub_flags8, update_sub_flags16, update_sub_flags32, update_sub_flags64, update_sbb_flags8,
  update_sbb_flags16, update_sbb_flags32, update_sbb_flags64,
}

pub data Width : Type 0 where
  i8 i16 i32 i64 : Width

-- The number of the highest bit.
abbrev pub top_of : Width → ℕ
top_of i8 = 7
top_of i16 = 15
top_of i32 = 31
top_of i64 = 63

-- The low bits of a number, as many as the width has.
abbrev pub low : Width → ℕ → ℕ
low w x = x % (2 * 2 ^ top_of w)

unfoldable pub update_add_flags : Width → (rflags lhs rhs result : ℕ) → ℕ
unfolding update_add_flags8 update_add_flags16 update_add_flags32 update_add_flags64
update_add_flags i8 = update_add_flags8
update_add_flags i16 = update_add_flags16
update_add_flags i32 = update_add_flags32
update_add_flags i64 = update_add_flags64

unfoldable pub update_sub_flags : Width → (rflags lhs rhs result : ℕ) → ℕ
unfolding update_sub_flags8 update_sub_flags16 update_sub_flags32 update_sub_flags64
update_sub_flags i8 = update_sub_flags8
update_sub_flags i16 = update_sub_flags16
update_sub_flags i32 = update_sub_flags32
update_sub_flags i64 = update_sub_flags64

-- No helper has 16 bits: the choice falls through to 64.
unfoldable pub update_adc_flags : Width → (rflags lhs rhs carry : ℕ) → ℕ
unfolding update_adc_flags8 update_adc_flags32 update_adc_flags64
update_adc_flags i8 = update_adc_flags8
update_adc_flags i16 = update_adc_flags64
update_adc_flags i32 = update_adc_flags32
update_adc_flags i64 = update_adc_flags64

unfoldable pub update_sbb_flags : Width → (rflags lhs rhs borrow : ℕ) → ℕ
unfolding update_sbb_flags8 update_sbb_flags16 update_sbb_flags32 update_sbb_flags64
update_sbb_flags i8 = update_sbb_flags8
update_sbb_flags i16 = update_sbb_flags16
update_sbb_flags i32 = update_sbb_flags32
update_sbb_flags i64 = update_sbb_flags64
