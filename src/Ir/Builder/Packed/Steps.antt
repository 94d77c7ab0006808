-- ===== src/Ir/Builder/Packed/Steps.antt =====
-- The calls of Builder that Ir/Builder/Packed models, as steps, and what they keep.
use rosa.Prelude.{ℕ, ◌<◌, Bool, refl}
use rosa.Flags.Select.{Width}
use rosa.Ir.{Opcode, Block, number}
use rosa.Ir.Builder.Packed
use rosa.Ir.Builder.Built.{IsBuilding, used, unused, append-IsBuilding}

module _ (block : Block) (lhs rhs third : ℕ) (width : Width) (m n k rip : ℕ) (flag : Bool) where
  -- A call with these arguments, its values those of earlier calls.
  pub data PackedStep : Block → Type 0 where
    add_xmm_words : PackedStep (Packed.add_xmm_words m n rip block)
    compare_packed_double_xmm : PackedStep (Packed.compare_packed_double_xmm m n k rip block)
    arithmetic_packed_double_xmm : PackedStep (Packed.arithmetic_packed_double_xmm m n k rip block)
    arithmetic_guest_memory_packed_double_xmm :
        lhs < block.value_count
        → PackedStep (Packed.arithmetic_guest_memory_packed_double_xmm lhs m n rip block)
    unpack_high_packed_single_xmm : PackedStep (Packed.unpack_high_packed_single_xmm m n rip block)
    unpack_high_guest_packed_single_xmm :
        lhs < block.value_count
        → PackedStep (Packed.unpack_high_guest_packed_single_xmm lhs m rip block)
    horizontal_add_packed_double_xmm :
        PackedStep (Packed.horizontal_add_packed_double_xmm m n rip block)
    horizontal_add_guest_packed_double_xmm :
        lhs < block.value_count
        → PackedStep (Packed.horizontal_add_guest_packed_double_xmm lhs m rip block)
    unpack_low_packed_single_xmm : PackedStep (Packed.unpack_low_packed_single_xmm m n rip block)
    unpack_low_guest_packed_single_xmm :
        lhs < block.value_count
        → PackedStep (Packed.unpack_low_guest_packed_single_xmm lhs m rip block)
    update_unordered_double_flags :
        lhs < block.value_count
        → rhs < block.value_count
        → PackedStep (Packed.update_unordered_double_flags lhs rhs rip block)
    update_unordered_float_flags :
        lhs < block.value_count
        → rhs < block.value_count
        → PackedStep (Packed.update_unordered_float_flags lhs rhs rip block)
    convert_int_to_double_xmm :
        lhs < block.value_count
        → PackedStep (Packed.convert_int_to_double_xmm lhs m width rip block)
    convert_double_to_int :
        lhs < block.value_count → PackedStep (Packed.convert_double_to_int lhs m width rip block)
    convert_float_to_double_xmm :
        lhs < block.value_count → PackedStep (Packed.convert_float_to_double_xmm lhs m rip block)
    convert_int32x2_to_double_xmm :
        lhs < block.value_count → PackedStep (Packed.convert_int32x2_to_double_xmm lhs m rip block)
    scalar_double_xmm :
        lhs < block.value_count → PackedStep (Packed.scalar_double_xmm lhs m n rip block)
    add_xmm_dwords : PackedStep (Packed.add_xmm_dwords m n rip block)
    horizontal_add_xmm_dwords : PackedStep (Packed.horizontal_add_xmm_dwords m n rip block)
    and_not_xmm : PackedStep (Packed.and_not_xmm m n rip block)
    move_xmm_byte_mask : PackedStep (Packed.move_xmm_byte_mask m n rip block)
    shuffle_xmm_bytes : PackedStep (Packed.shuffle_xmm_bytes m n rip block)
    shuffle_guest_memory_xmm_bytes :
        lhs < block.value_count → PackedStep (Packed.shuffle_guest_memory_xmm_bytes lhs m rip block)
    shuffle_xmm_dwords : PackedStep (Packed.shuffle_xmm_dwords m n k rip block)
    align_right_xmm_bytes : PackedStep (Packed.align_right_xmm_bytes m n k rip block)
    blend_xmm_words : PackedStep (Packed.blend_xmm_words m n k rip block)
    unpack_low_xmm_words : PackedStep (Packed.unpack_low_xmm_words m n rip block)

  pub PackedStep-IsBuilding : (next : Block) → PackedStep next → IsBuilding block → IsBuilding next
  unfolding number Packed.add_xmm_words Packed.compare_packed_double_xmm
      Packed.arithmetic_packed_double_xmm Packed.arithmetic_guest_memory_packed_double_xmm
      Packed.unpack_high_packed_single_xmm Packed.unpack_high_guest_packed_single_xmm
      Packed.horizontal_add_packed_double_xmm Packed.horizontal_add_guest_packed_double_xmm
      Packed.unpack_low_packed_single_xmm Packed.unpack_low_guest_packed_single_xmm
      Packed.update_unordered_double_flags Packed.update_unordered_float_flags
      Packed.convert_int_to_double_xmm Packed.convert_double_to_int
      Packed.convert_float_to_double_xmm Packed.convert_int32x2_to_double_xmm
      Packed.scalar_double_xmm Packed.add_xmm_dwords Packed.horizontal_add_xmm_dwords
      Packed.and_not_xmm Packed.move_xmm_byte_mask Packed.shuffle_xmm_bytes
      Packed.shuffle_guest_memory_xmm_bytes Packed.shuffle_xmm_dwords Packed.align_right_xmm_bytes
      Packed.blend_xmm_words Packed.unpack_low_xmm_words
  PackedStep-IsBuilding next step building = elim step as (λ reached taken. IsBuilding reached) [
    | add_xmm_words ↦
        append-IsBuilding block _ unused unused unused Opcode.add_xmm_words refl refl refl building
    | compare_packed_double_xmm ↦
        append-IsBuilding block _ unused unused unused Opcode.compare_packed_double_xmm refl refl
          refl building
    | arithmetic_packed_double_xmm ↦
        append-IsBuilding block _ unused unused unused Opcode.arithmetic_packed_double_xmm refl refl
          refl building
    | arithmetic_guest_memory_packed_double_xmm a ↦
        append-IsBuilding block _ (used a) unused unused
          Opcode.arithmetic_guest_memory_packed_double_xmm refl refl refl building
    | unpack_high_packed_single_xmm ↦
        append-IsBuilding block _ unused unused unused Opcode.unpack_high_packed_single_xmm refl
          refl refl building
    | unpack_high_guest_packed_single_xmm a ↦
        append-IsBuilding block _ (used a) unused unused Opcode.unpack_high_guest_packed_single_xmm
          refl refl refl building
    | horizontal_add_packed_double_xmm ↦
        append-IsBuilding block _ unused unused unused Opcode.horizontal_add_packed_double_xmm refl
          refl refl building
    | horizontal_add_guest_packed_double_xmm a ↦
        append-IsBuilding block _ (used a) unused unused
          Opcode.horizontal_add_guest_packed_double_xmm refl refl refl building
    | unpack_low_packed_single_xmm ↦
        append-IsBuilding block _ unused unused unused Opcode.unpack_low_packed_single_xmm refl refl
          refl building
    | unpack_low_guest_packed_single_xmm a ↦
        append-IsBuilding block _ (used a) unused unused Opcode.unpack_low_guest_packed_single_xmm
          refl refl refl building
    | update_unordered_double_flags a b ↦
        append-IsBuilding block _ (used a) (used b) unused Opcode.update_unordered_double_flags refl
          refl refl building
    | update_unordered_float_flags a b ↦
        append-IsBuilding block _ (used a) (used b) unused Opcode.update_unordered_float_flags refl
          refl refl building
    | convert_int_to_double_xmm a ↦
        append-IsBuilding block _ (used a) unused unused Opcode.convert_int_to_double_xmm refl refl
          refl building
    | convert_double_to_int a ↦
        append-IsBuilding block _ (used a) unused unused Opcode.convert_double_to_int refl refl refl
          building
    | convert_float_to_double_xmm a ↦
        append-IsBuilding block _ (used a) unused unused Opcode.convert_float_to_double_xmm refl
          refl refl building
    | convert_int32x2_to_double_xmm a ↦
        append-IsBuilding block _ (used a) unused unused Opcode.convert_int32x2_to_double_xmm refl
          refl refl building
    | scalar_double_xmm a ↦
        append-IsBuilding block _ (used a) unused unused Opcode.scalar_double_xmm refl refl refl
          building
    | add_xmm_dwords ↦
        append-IsBuilding block _ unused unused unused Opcode.add_xmm_dwords refl refl refl building
    | horizontal_add_xmm_dwords ↦
        append-IsBuilding block _ unused unused unused Opcode.horizontal_add_xmm_dwords refl refl
          refl building
    | and_not_xmm ↦
        append-IsBuilding block _ unused unused unused Opcode.and_not_xmm refl refl refl building
    | move_xmm_byte_mask ↦
        append-IsBuilding block _ unused unused unused Opcode.move_xmm_byte_mask refl refl refl
          building
    | shuffle_xmm_bytes ↦
        append-IsBuilding block _ unused unused unused Opcode.shuffle_xmm_bytes refl refl refl
          building
    | shuffle_guest_memory_xmm_bytes a ↦
        append-IsBuilding block _ (used a) unused unused Opcode.shuffle_xmm_bytes refl refl refl
          building
    | shuffle_xmm_dwords ↦
        append-IsBuilding block _ unused unused unused Opcode.shuffle_xmm_dwords refl refl refl
          building
    | align_right_xmm_bytes ↦
        append-IsBuilding block _ unused unused unused Opcode.align_right_xmm_bytes refl refl refl
          building
    | blend_xmm_words ↦
        append-IsBuilding block _ unused unused unused Opcode.blend_xmm_words refl refl refl
          building
    | unpack_low_xmm_words ↦
        append-IsBuilding block _ unused unused unused Opcode.unpack_low_xmm_words refl refl refl
          building
  ]
