-- ===== src/Ir/Builder/Flags/Steps.antt =====
-- The calls of Builder that Ir/Builder/Flags models, as steps, and what they keep.
use rosa.Prelude.{ℕ, ◌<◌, Bool, refl}
use rosa.Flags.Select.{Width}
use rosa.Ir.{Opcode, Block, number}
use rosa.Ir.Builder.Flags
use rosa.Ir.Builder.Built.{IsBuilding, used, unused, append-IsBuilding}

module _ (block : Block) (lhs rhs third : ℕ) (width : Width) (m n k rip : ℕ) (flag : Bool) where
  -- A call with these arguments, its values those of earlier calls.
  pub data FlagStep : Block → Type 0 where
    update_add_flags :
        lhs < block.value_count
        → rhs < block.value_count
        → third < block.value_count
        → FlagStep (Flags.update_add_flags lhs rhs third width rip block)
    update_adc_flags :
        lhs < block.value_count
        → rhs < block.value_count
        → third < block.value_count
        → FlagStep (Flags.update_adc_flags lhs rhs third width rip block)
    update_sbb_flags :
        lhs < block.value_count
        → rhs < block.value_count
        → third < block.value_count
        → FlagStep (Flags.update_sbb_flags lhs rhs third width rip block)
    update_inc_flags :
        lhs < block.value_count
        → rhs < block.value_count
        → FlagStep (Flags.update_inc_flags lhs rhs width rip block)
    update_dec_flags :
        lhs < block.value_count
        → rhs < block.value_count
        → FlagStep (Flags.update_dec_flags lhs rhs width rip block)
    update_sub_flags :
        lhs < block.value_count
        → rhs < block.value_count
        → third < block.value_count
        → FlagStep (Flags.update_sub_flags lhs rhs third width rip block)
    update_logic_flags :
        lhs < block.value_count → FlagStep (Flags.update_logic_flags lhs width rip block)
    update_shift_left_flags :
        lhs < block.value_count
        → rhs < block.value_count
        → FlagStep (Flags.update_shift_left_flags lhs rhs m width rip block)
    update_shift_left_flags_by_value :
        lhs < block.value_count
        → rhs < block.value_count
        → third < block.value_count
        → FlagStep (Flags.update_shift_left_flags_by_value lhs rhs third width rip block)
    update_shift_right_flags :
        lhs < block.value_count
        → rhs < block.value_count
        → FlagStep (Flags.update_shift_right_flags lhs rhs m width rip block)
    update_shift_right_flags_by_value :
        lhs < block.value_count
        → rhs < block.value_count
        → third < block.value_count
        → FlagStep (Flags.update_shift_right_flags_by_value lhs rhs third width rip block)
    update_shift_right_arithmetic_flags :
        lhs < block.value_count
        → rhs < block.value_count
        → FlagStep (Flags.update_shift_right_arithmetic_flags lhs rhs m width rip block)
    update_shift_right_arithmetic_flags_by_value :
        lhs < block.value_count
        → rhs < block.value_count
        → third < block.value_count
        → FlagStep
            (Flags.update_shift_right_arithmetic_flags_by_value lhs rhs third width rip block)
    update_rotate_left_flags :
        lhs < block.value_count → FlagStep (Flags.update_rotate_left_flags lhs m width rip block)
    update_rotate_left_flags_by_value :
        lhs < block.value_count
        → rhs < block.value_count
        → FlagStep (Flags.update_rotate_left_flags_by_value lhs rhs width rip block)
    update_rotate_right_flags :
        lhs < block.value_count → FlagStep (Flags.update_rotate_right_flags lhs m width rip block)
    update_rotate_right_flags_by_value :
        lhs < block.value_count
        → rhs < block.value_count
        → FlagStep (Flags.update_rotate_right_flags_by_value lhs rhs width rip block)
    update_multiply_flags :
        lhs < block.value_count → FlagStep (Flags.update_multiply_flags lhs width rip block)
    update_signed_multiply_flags :
        lhs < block.value_count
        → rhs < block.value_count
        → FlagStep (Flags.update_signed_multiply_flags lhs rhs width rip block)
    update_shift_right_double_flags :
        lhs < block.value_count
        → rhs < block.value_count
        → FlagStep (Flags.update_shift_right_double_flags lhs rhs m width rip block)
    update_bit_test_flags :
        lhs < block.value_count → FlagStep (Flags.update_bit_test_flags lhs m width rip block)

  pub FlagStep-IsBuilding : (next : Block) → FlagStep next → IsBuilding block → IsBuilding next
  unfolding number Flags.update_add_flags Flags.update_adc_flags Flags.update_sbb_flags
      Flags.update_inc_flags Flags.update_dec_flags Flags.update_sub_flags Flags.update_logic_flags
      Flags.update_shift_left_flags Flags.update_shift_left_flags_by_value
      Flags.update_shift_right_flags Flags.update_shift_right_flags_by_value
      Flags.update_shift_right_arithmetic_flags Flags.update_shift_right_arithmetic_flags_by_value
      Flags.update_rotate_left_flags Flags.update_rotate_left_flags_by_value
      Flags.update_rotate_right_flags Flags.update_rotate_right_flags_by_value
      Flags.update_multiply_flags Flags.update_signed_multiply_flags
      Flags.update_shift_right_double_flags Flags.update_bit_test_flags
  FlagStep-IsBuilding next step building = elim step as (λ reached taken. IsBuilding reached) [
    | update_add_flags a b c ↦
        append-IsBuilding block _ (used a) (used b) (used c) Opcode.update_add_flags refl refl refl
          building
    | update_adc_flags a b c ↦
        append-IsBuilding block _ (used a) (used b) (used c) Opcode.update_adc_flags refl refl refl
          building
    | update_sbb_flags a b c ↦
        append-IsBuilding block _ (used a) (used b) (used c) Opcode.update_sbb_flags refl refl refl
          building
    | update_inc_flags a b ↦
        append-IsBuilding block _ (used a) (used b) unused Opcode.update_inc_flags refl refl refl
          building
    | update_dec_flags a b ↦
        append-IsBuilding block _ (used a) (used b) unused Opcode.update_dec_flags refl refl refl
          building
    | update_sub_flags a b c ↦
        append-IsBuilding block _ (used a) (used b) (used c) Opcode.update_sub_flags refl refl refl
          building
    | update_logic_flags a ↦
        append-IsBuilding block _ (used a) unused unused Opcode.update_logic_flags refl refl refl
          building
    | update_shift_left_flags a b ↦
        append-IsBuilding block _ (used a) (used b) unused Opcode.update_shift_left_flags refl refl
          refl building
    | update_shift_left_flags_by_value a b c ↦
        append-IsBuilding block _ (used a) (used b) (used c) Opcode.update_shift_left_flags refl
          refl refl building
    | update_shift_right_flags a b ↦
        append-IsBuilding block _ (used a) (used b) unused Opcode.update_shift_right_flags refl refl
          refl building
    | update_shift_right_flags_by_value a b c ↦
        append-IsBuilding block _ (used a) (used b) (used c) Opcode.update_shift_right_flags refl
          refl refl building
    | update_shift_right_arithmetic_flags a b ↦
        append-IsBuilding block _ (used a) (used b) unused
          Opcode.update_shift_right_arithmetic_flags refl refl refl building
    | update_shift_right_arithmetic_flags_by_value a b c ↦
        append-IsBuilding block _ (used a) (used b) (used c)
          Opcode.update_shift_right_arithmetic_flags refl refl refl building
    | update_rotate_left_flags a ↦
        append-IsBuilding block _ (used a) unused unused Opcode.update_rotate_left_flags refl refl
          refl building
    | update_rotate_left_flags_by_value a b ↦
        append-IsBuilding block _ (used a) (used b) unused Opcode.update_rotate_left_flags refl refl
          refl building
    | update_rotate_right_flags a ↦
        append-IsBuilding block _ (used a) unused unused Opcode.update_rotate_right_flags refl refl
          refl building
    | update_rotate_right_flags_by_value a b ↦
        append-IsBuilding block _ (used a) (used b) unused Opcode.update_rotate_right_flags refl
          refl refl building
    | update_multiply_flags a ↦
        append-IsBuilding block _ (used a) unused unused Opcode.update_multiply_flags refl refl refl
          building
    | update_signed_multiply_flags a b ↦
        append-IsBuilding block _ (used a) (used b) unused Opcode.update_signed_multiply_flags refl
          refl refl building
    | update_shift_right_double_flags a b ↦
        append-IsBuilding block _ (used a) (used b) unused Opcode.update_shift_right_double_flags
          refl refl refl building
    | update_bit_test_flags a ↦
        append-IsBuilding block _ (used a) unused unused Opcode.update_bit_test_flags refl refl refl
          building
  ]
