-- ===== src/Ir/Builder/Flags.antt =====
-- Builder of src/ir/IR.cpp: updates of the status flags.
pub mod Steps
use rosa.Prelude.{ℕ, Bool, some, if◌then◌else◌}
use rosa.Flags.Select.{Width, i8, i16, i32, i64}
use rosa.Ir.{Opcode, ExitKind, Block}
use rosa.Ir.Builder.{at, append, define_value}

unfoldable pub update_add_flags : (lhs rhs result : ℕ) (width : Width) (rip : ℕ) → Block → Block
update_add_flags lhs rhs result width rip = append (record (at Opcode.update_add_flags width rip) {
  lhs = some lhs;
  rhs = some rhs;
  third = some result;
})

unfoldable pub update_adc_flags : (lhs rhs carry : ℕ) (width : Width) (rip : ℕ) → Block → Block
update_adc_flags lhs rhs carry width rip = append (record (at Opcode.update_adc_flags width rip) {
  lhs = some lhs;
  rhs = some rhs;
  third = some carry;
})

unfoldable pub update_sbb_flags : (lhs rhs borrow : ℕ) (width : Width) (rip : ℕ) → Block → Block
update_sbb_flags lhs rhs borrow width rip = append (record (at Opcode.update_sbb_flags width rip) {
  lhs = some lhs;
  rhs = some rhs;
  third = some borrow;
})

unfoldable pub update_inc_flags : (original result : ℕ) (width : Width) (rip : ℕ) → Block → Block
update_inc_flags original result width rip =
    append
      (record (at Opcode.update_inc_flags width rip) { lhs = some original; rhs = some result })

unfoldable pub update_dec_flags : (original result : ℕ) (width : Width) (rip : ℕ) → Block → Block
update_dec_flags original result width rip =
    append
      (record (at Opcode.update_dec_flags width rip) { lhs = some original; rhs = some result })

unfoldable pub update_sub_flags : (lhs rhs result : ℕ) (width : Width) (rip : ℕ) → Block → Block
update_sub_flags lhs rhs result width rip = append (record (at Opcode.update_sub_flags width rip) {
  lhs = some lhs;
  rhs = some rhs;
  third = some result;
})

unfoldable pub update_logic_flags : (result : ℕ) (width : Width) (rip : ℕ) → Block → Block
update_logic_flags result width rip =
    append (record (at Opcode.update_logic_flags width rip) { lhs = some result })

unfoldable pub update_shift_left_flags :
    (lhs result count : ℕ) (width : Width) (rip : ℕ) → Block → Block
update_shift_left_flags lhs result count width rip =
    append (record (at Opcode.update_shift_left_flags width rip) {
      lhs = some lhs;
      rhs = some result;
      immediate = count;
    })

unfoldable pub update_shift_left_flags_by_value :
    (lhs result count : ℕ) (width : Width) (rip : ℕ) → Block → Block
update_shift_left_flags_by_value lhs result count width rip =
    append (record (at Opcode.update_shift_left_flags width rip) {
      lhs = some lhs;
      rhs = some result;
      third = some count;
    })

unfoldable pub update_shift_right_flags :
    (lhs result count : ℕ) (width : Width) (rip : ℕ) → Block → Block
update_shift_right_flags lhs result count width rip =
    append (record (at Opcode.update_shift_right_flags width rip) {
      lhs = some lhs;
      rhs = some result;
      immediate = count;
    })

unfoldable pub update_shift_right_flags_by_value :
    (lhs result count : ℕ) (width : Width) (rip : ℕ) → Block → Block
update_shift_right_flags_by_value lhs result count width rip =
    append (record (at Opcode.update_shift_right_flags width rip) {
      lhs = some lhs;
      rhs = some result;
      third = some count;
    })

unfoldable pub update_shift_right_arithmetic_flags :
    (lhs result count : ℕ) (width : Width) (rip : ℕ) → Block → Block
update_shift_right_arithmetic_flags lhs result count width rip =
    append (record (at Opcode.update_shift_right_arithmetic_flags width rip) {
      lhs = some lhs;
      rhs = some result;
      immediate = count;
    })

unfoldable pub update_shift_right_arithmetic_flags_by_value :
    (lhs result count : ℕ) (width : Width) (rip : ℕ) → Block → Block
update_shift_right_arithmetic_flags_by_value lhs result count width rip =
    append (record (at Opcode.update_shift_right_arithmetic_flags width rip) {
      lhs = some lhs;
      rhs = some result;
      third = some count;
    })

unfoldable pub update_rotate_left_flags :
    (result count : ℕ) (width : Width) (rip : ℕ) → Block → Block
update_rotate_left_flags result count width rip =
    append (record (at Opcode.update_rotate_left_flags width rip) {
      lhs = some result;
      immediate = count;
    })

unfoldable pub update_rotate_left_flags_by_value :
    (result count : ℕ) (width : Width) (rip : ℕ) → Block → Block
update_rotate_left_flags_by_value result count width rip =
    append (record (at Opcode.update_rotate_left_flags width rip) {
      lhs = some result;
      rhs = some count;
    })

unfoldable pub update_rotate_right_flags :
    (result count : ℕ) (width : Width) (rip : ℕ) → Block → Block
update_rotate_right_flags result count width rip =
    append (record (at Opcode.update_rotate_right_flags width rip) {
      lhs = some result;
      immediate = count;
    })

unfoldable pub update_rotate_right_flags_by_value :
    (result count : ℕ) (width : Width) (rip : ℕ) → Block → Block
update_rotate_right_flags_by_value result count width rip =
    append (record (at Opcode.update_rotate_right_flags width rip) {
      lhs = some result;
      rhs = some count;
    })

unfoldable pub update_multiply_flags : (high : ℕ) (width : Width) (rip : ℕ) → Block → Block
update_multiply_flags high width rip =
    append (record (at Opcode.update_multiply_flags width rip) { lhs = some high })

unfoldable pub update_signed_multiply_flags :
    (lhs rhs : ℕ) (width : Width) (rip : ℕ) → Block → Block
update_signed_multiply_flags lhs rhs width rip =
    append
      (record (at Opcode.update_signed_multiply_flags width rip) { lhs = some lhs; rhs = some rhs })

unfoldable pub update_shift_right_double_flags :
    (original result count : ℕ) (width : Width) (rip : ℕ) → Block → Block
update_shift_right_double_flags original result count width rip =
    append (record (at Opcode.update_shift_right_double_flags width rip) {
      lhs = some original;
      rhs = some result;
      immediate = count;
    })

unfoldable pub update_bit_test_flags :
    (value bit_index : ℕ) (width : Width) (rip : ℕ) → Block → Block
update_bit_test_flags value bit_index width rip =
    append (record (at Opcode.update_bit_test_flags width rip) {
      lhs = some value;
      immediate = bit_index;
    })
