-- ===== src/Ir/Builder/Integers/Steps.antt =====
-- The calls of Builder that Ir/Builder/Integers models, as steps, and what they keep.
use rosa.Prelude.{ℕ, ◌<◌, Bool, refl}
use rosa.Flags.Select.{Width}
use rosa.Ir.{Opcode, Block, number}
use rosa.Ir.Builder.Integers
use rosa.Ir.Builder.Built.{
  IsBuilding, used, unused, append-IsBuilding, define_value-IsBuilding,
  write_guest_register-IsBuilding,
}

module _ (block : Block) (lhs rhs third : ℕ) (width : Width) (m n k rip : ℕ) (flag : Bool) where
  -- A call with these arguments, its values those of earlier calls.
  pub data IntegerStep : Block → Type 0 where
    constant : IntegerStep (Integers.constant m width rip block).1
    read_guest_register : IntegerStep (Integers.read_guest_register m width rip block).1
    read_guest_gs_base : IntegerStep (Integers.read_guest_gs_base rip block).1
    write_guest_register :
        lhs < block.value_count → IntegerStep (Integers.write_guest_register m lhs width rip block)
    conditional_move_guest_register :
        IntegerStep (Integers.conditional_move_guest_register m n k width rip block)
    conditional_move_guest_register_by_value :
        lhs < block.value_count
        → IntegerStep (Integers.conditional_move_guest_register_by_value m lhs n width rip block)
    add :
        lhs < block.value_count
        → rhs < block.value_count
        → IntegerStep (Integers.add lhs rhs width rip block).1
    sub :
        lhs < block.value_count
        → rhs < block.value_count
        → IntegerStep (Integers.sub lhs rhs width rip block).1
    shift_left : lhs < block.value_count → IntegerStep (Integers.shift_left lhs m width rip block).1
    shift_left_by_value :
        lhs < block.value_count
        → rhs < block.value_count
        → IntegerStep (Integers.shift_left_by_value lhs rhs width rip block).1
    shift_right_logical :
        lhs < block.value_count → IntegerStep (Integers.shift_right_logical lhs m width rip block).1
    shift_right_logical_by_value :
        lhs < block.value_count
        → rhs < block.value_count
        → IntegerStep (Integers.shift_right_logical_by_value lhs rhs width rip block).1
    shift_right_arithmetic :
        lhs < block.value_count
        → IntegerStep (Integers.shift_right_arithmetic lhs m width rip block).1
    shift_right_arithmetic_by_value :
        lhs < block.value_count
        → rhs < block.value_count
        → IntegerStep (Integers.shift_right_arithmetic_by_value lhs rhs width rip block).1
    multiply_low :
        lhs < block.value_count
        → rhs < block.value_count
        → IntegerStep (Integers.multiply_low lhs rhs width rip block).1
    multiply_high_unsigned :
        lhs < block.value_count
        → rhs < block.value_count
        → IntegerStep (Integers.multiply_high_unsigned lhs rhs width rip block).1
    multiply_high_signed :
        lhs < block.value_count
        → rhs < block.value_count
        → IntegerStep (Integers.multiply_high_signed lhs rhs width rip block).1
    shift_right_double :
        lhs < block.value_count
        → rhs < block.value_count
        → IntegerStep (Integers.shift_right_double lhs rhs m width rip block).1
    bit_and :
        lhs < block.value_count
        → rhs < block.value_count
        → IntegerStep (Integers.bit_and lhs rhs width rip block).1
    bit_or :
        lhs < block.value_count
        → rhs < block.value_count
        → IntegerStep (Integers.bit_or lhs rhs width rip block).1
    bit_xor :
        lhs < block.value_count
        → rhs < block.value_count
        → IntegerStep (Integers.bit_xor lhs rhs width rip block).1
    byte_swap : lhs < block.value_count → IntegerStep (Integers.byte_swap lhs width rip block).1
    sign_extend32 : lhs < block.value_count → IntegerStep (Integers.sign_extend32 lhs rip block).1
    evaluate_condition : IntegerStep (Integers.evaluate_condition m rip block).1

  pub IntegerStep-IsBuilding :
      (next : Block) → IntegerStep next → IsBuilding block → IsBuilding next
  unfolding number Integers.constant Integers.read_guest_register Integers.read_guest_gs_base
      Integers.write_guest_register Integers.conditional_move_guest_register
      Integers.conditional_move_guest_register_by_value Integers.add Integers.sub
      Integers.shift_left Integers.shift_left_by_value Integers.shift_right_logical
      Integers.shift_right_logical_by_value Integers.shift_right_arithmetic
      Integers.shift_right_arithmetic_by_value Integers.multiply_low Integers.multiply_high_unsigned
      Integers.multiply_high_signed Integers.shift_right_double Integers.bit_and Integers.bit_or
      Integers.bit_xor Integers.byte_swap Integers.sign_extend32 Integers.evaluate_condition
  IntegerStep-IsBuilding next step building = elim step as (λ reached taken. IsBuilding reached) [
    | constant ↦
        define_value-IsBuilding block _ unused unused unused Opcode.constant refl refl refl building
    | read_guest_register ↦
        define_value-IsBuilding block _ unused unused unused Opcode.read_guest_reg refl refl refl
          building
    | read_guest_gs_base ↦
        define_value-IsBuilding block _ unused unused unused Opcode.read_guest_gs_base refl refl
          refl building
    | write_guest_register a ↦
        write_guest_register-IsBuilding block _ (used a) unused unused refl refl building
    | conditional_move_guest_register ↦
        append-IsBuilding block _ unused unused unused Opcode.conditional_move_guest_reg refl refl
          refl building
    | conditional_move_guest_register_by_value a ↦
        append-IsBuilding block _ (used a) unused unused Opcode.conditional_move_guest_reg refl refl
          refl building
    | add a b ↦
        define_value-IsBuilding block _ (used a) (used b) unused Opcode.add refl refl refl building
    | sub a b ↦
        define_value-IsBuilding block _ (used a) (used b) unused Opcode.sub refl refl refl building
    | shift_left a ↦
        define_value-IsBuilding block _ (used a) unused unused Opcode.shift_left refl refl refl
          building
    | shift_left_by_value a b ↦
        define_value-IsBuilding block _ (used a) (used b) unused Opcode.shift_left refl refl refl
          building
    | shift_right_logical a ↦
        define_value-IsBuilding block _ (used a) unused unused Opcode.shift_right_logical refl refl
          refl building
    | shift_right_logical_by_value a b ↦
        define_value-IsBuilding block _ (used a) (used b) unused Opcode.shift_right_logical refl
          refl refl building
    | shift_right_arithmetic a ↦
        define_value-IsBuilding block _ (used a) unused unused Opcode.shift_right_arithmetic refl
          refl refl building
    | shift_right_arithmetic_by_value a b ↦
        define_value-IsBuilding block _ (used a) (used b) unused Opcode.shift_right_arithmetic refl
          refl refl building
    | multiply_low a b ↦
        define_value-IsBuilding block _ (used a) (used b) unused Opcode.multiply_low refl refl refl
          building
    | multiply_high_unsigned a b ↦
        define_value-IsBuilding block _ (used a) (used b) unused Opcode.multiply_high_unsigned refl
          refl refl building
    | multiply_high_signed a b ↦
        define_value-IsBuilding block _ (used a) (used b) unused Opcode.multiply_high_signed refl
          refl refl building
    | shift_right_double a b ↦
        define_value-IsBuilding block _ (used a) (used b) unused Opcode.shift_right_double refl refl
          refl building
    | bit_and a b ↦
        define_value-IsBuilding block _ (used a) (used b) unused Opcode.and refl refl refl building
    | bit_or a b ↦
        define_value-IsBuilding block _ (used a) (used b) unused Opcode.or refl refl refl building
    | bit_xor a b ↦
        define_value-IsBuilding block _ (used a) (used b) unused Opcode.xor refl refl refl building
    | byte_swap a ↦
        define_value-IsBuilding block _ (used a) unused unused Opcode.byte_swap refl refl refl
          building
    | sign_extend32 a ↦
        define_value-IsBuilding block _ (used a) unused unused Opcode.sign_extend32 refl refl refl
          building
    | evaluate_condition ↦
        define_value-IsBuilding block _ unused unused unused Opcode.evaluate_condition refl refl
          refl building
  ]
