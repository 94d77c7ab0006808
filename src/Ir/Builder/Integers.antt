-- ===== src/Ir/Builder/Integers.antt =====
-- Builder of src/ir/IR.cpp: constants, general registers, arithmetic, shifts and bit operations.
pub mod Steps
use rosa.Prelude.{ℕ, Bool, some, if◌then◌else◌}
use rosa.Flags.Select.{Width, i8, i16, i32, i64}
use rosa.Ir.{Opcode, ExitKind, Block}
use rosa.Ir.Builder.{at, append, define_value}

unfoldable pub constant : (value : ℕ) (width : Width) (rip : ℕ) → Block → ℕ × Block
constant value width rip =
    define_value (record (at Opcode.constant width rip) { immediate = value })

unfoldable pub read_guest_register : (reg : ℕ) (width : Width) (rip : ℕ) → Block → ℕ × Block
read_guest_register reg width rip =
    define_value (record (at Opcode.read_guest_reg width rip) { guest_register = some reg })

unfoldable pub read_guest_gs_base : (rip : ℕ) → Block → ℕ × Block
read_guest_gs_base rip = define_value (at Opcode.read_guest_gs_base i64 rip)

unfoldable pub write_guest_register : (reg value : ℕ) (width : Width) (rip : ℕ) → Block → Block
write_guest_register reg value width rip =
    append
      (record (at Opcode.write_guest_reg width rip) { lhs = some value; guest_register = some reg })

unfoldable pub conditional_move_guest_register :
    (destination source condition : ℕ) (width : Width) (rip : ℕ) → Block → Block
conditional_move_guest_register destination source condition width rip =
    append (record (at Opcode.conditional_move_guest_reg width rip) {
      guest_register = some destination;
      condition = some condition;
      immediate = source;
    })

unfoldable pub conditional_move_guest_register_by_value :
    (destination source condition : ℕ) (width : Width) (rip : ℕ) → Block → Block
conditional_move_guest_register_by_value destination source condition width rip =
    append (record (at Opcode.conditional_move_guest_reg width rip) {
      lhs = some source;
      guest_register = some destination;
      condition = some condition;
    })

unfoldable pub add : (lhs rhs : ℕ) (width : Width) (rip : ℕ) → Block → ℕ × Block
add lhs rhs width rip =
    define_value (record (at Opcode.add width rip) { lhs = some lhs; rhs = some rhs })

unfoldable pub sub : (lhs rhs : ℕ) (width : Width) (rip : ℕ) → Block → ℕ × Block
sub lhs rhs width rip =
    define_value (record (at Opcode.sub width rip) { lhs = some lhs; rhs = some rhs })

unfoldable pub shift_left : (value count : ℕ) (width : Width) (rip : ℕ) → Block → ℕ × Block
shift_left value count width rip =
    define_value (record (at Opcode.shift_left width rip) { lhs = some value; immediate = count })

unfoldable pub shift_left_by_value : (value count : ℕ) (width : Width) (rip : ℕ) → Block → ℕ × Block
shift_left_by_value value count width rip =
    define_value (record (at Opcode.shift_left width rip) { lhs = some value; rhs = some count })

unfoldable pub shift_right_logical : (value count : ℕ) (width : Width) (rip : ℕ) → Block → ℕ × Block
shift_right_logical value count width rip =
    define_value
      (record (at Opcode.shift_right_logical width rip) { lhs = some value; immediate = count })

unfoldable pub shift_right_logical_by_value :
    (value count : ℕ) (width : Width) (rip : ℕ) → Block → ℕ × Block
shift_right_logical_by_value value count width rip =
    define_value
      (record (at Opcode.shift_right_logical width rip) { lhs = some value; rhs = some count })

unfoldable pub shift_right_arithmetic :
    (value count : ℕ) (width : Width) (rip : ℕ) → Block → ℕ × Block
shift_right_arithmetic value count width rip =
    define_value
      (record (at Opcode.shift_right_arithmetic width rip) { lhs = some value; immediate = count })

unfoldable pub shift_right_arithmetic_by_value :
    (value count : ℕ) (width : Width) (rip : ℕ) → Block → ℕ × Block
shift_right_arithmetic_by_value value count width rip =
    define_value
      (record (at Opcode.shift_right_arithmetic width rip) { lhs = some value; rhs = some count })

unfoldable pub multiply_low : (lhs rhs : ℕ) (width : Width) (rip : ℕ) → Block → ℕ × Block
multiply_low lhs rhs width rip =
    define_value (record (at Opcode.multiply_low width rip) { lhs = some lhs; rhs = some rhs })

unfoldable pub multiply_high_unsigned : (lhs rhs : ℕ) (width : Width) (rip : ℕ) → Block → ℕ × Block
multiply_high_unsigned lhs rhs width rip =
    define_value
      (record (at Opcode.multiply_high_unsigned width rip) { lhs = some lhs; rhs = some rhs })

unfoldable pub multiply_high_signed : (lhs rhs : ℕ) (width : Width) (rip : ℕ) → Block → ℕ × Block
multiply_high_signed lhs rhs width rip =
    define_value
      (record (at Opcode.multiply_high_signed width rip) { lhs = some lhs; rhs = some rhs })

unfoldable pub shift_right_double :
    (low high count : ℕ) (width : Width) (rip : ℕ) → Block → ℕ × Block
shift_right_double low high count width rip =
    define_value (record (at Opcode.shift_right_double width rip) {
      lhs = some low;
      rhs = some high;
      immediate = count;
    })

unfoldable pub bit_and : (lhs rhs : ℕ) (width : Width) (rip : ℕ) → Block → ℕ × Block
bit_and lhs rhs width rip =
    define_value (record (at Opcode.and width rip) { lhs = some lhs; rhs = some rhs })

unfoldable pub bit_or : (lhs rhs : ℕ) (width : Width) (rip : ℕ) → Block → ℕ × Block
bit_or lhs rhs width rip =
    define_value (record (at Opcode.or width rip) { lhs = some lhs; rhs = some rhs })

unfoldable pub bit_xor : (lhs rhs : ℕ) (width : Width) (rip : ℕ) → Block → ℕ × Block
bit_xor lhs rhs width rip =
    define_value (record (at Opcode.xor width rip) { lhs = some lhs; rhs = some rhs })

unfoldable pub byte_swap : (value : ℕ) (width : Width) (rip : ℕ) → Block → ℕ × Block
byte_swap value width rip =
    define_value (record (at Opcode.byte_swap width rip) { lhs = some value })

unfoldable pub sign_extend32 : (value rip : ℕ) → Block → ℕ × Block
sign_extend32 value rip =
    define_value (record (at Opcode.sign_extend32 i64 rip) { lhs = some value })

unfoldable pub evaluate_condition : (condition rip : ℕ) → Block → ℕ × Block
evaluate_condition condition rip =
    define_value (record (at Opcode.evaluate_condition i8 rip) { condition = some condition })
