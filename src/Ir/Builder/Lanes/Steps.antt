-- ===== src/Ir/Builder/Lanes/Steps.antt =====
-- The calls of Builder that Ir/Builder/Lanes models, as steps, and what they keep.
use rosa.Prelude.{ℕ, ◌<◌, Bool, refl}
use rosa.Flags.Select.{Width}
use rosa.Ir.{Opcode, Block, number}
use rosa.Ir.Builder.Lanes
use rosa.Ir.Builder.Built.{IsBuilding, used, unused, append-IsBuilding, define_value-IsBuilding}

module _ (block : Block) (lhs rhs third : ℕ) (width : Width) (m n k rip : ℕ) (flag : Bool) where
  -- A call with these arguments, its values those of earlier calls.
  pub data LaneStep : Block → Type 0 where
    read_guest_xmm_lane : LaneStep (Lanes.read_guest_xmm_lane m flag rip block).1
    read_guest_ymm_upper_lane : LaneStep (Lanes.read_guest_ymm_upper_lane m flag rip block).1
    write_guest_xmm_lane :
        lhs < block.value_count → LaneStep (Lanes.write_guest_xmm_lane m flag lhs rip block)
    write_guest_ymm_upper_lane :
        lhs < block.value_count → LaneStep (Lanes.write_guest_ymm_upper_lane m flag lhs rip block)
    write_guest_xmm_byte :
        lhs < block.value_count → LaneStep (Lanes.write_guest_xmm_byte m n lhs rip block)
    write_guest_xmm_dword :
        lhs < block.value_count → LaneStep (Lanes.write_guest_xmm_dword m n lhs rip block)
    store_guest_xmm :
        lhs < block.value_count → LaneStep (Lanes.store_guest_xmm lhs m flag rip block)
    store_guest_ymm :
        lhs < block.value_count → LaneStep (Lanes.store_guest_ymm lhs m flag rip block)
    load_guest_xmm : lhs < block.value_count → LaneStep (Lanes.load_guest_xmm lhs m flag rip block)
    load_guest_ymm : lhs < block.value_count → LaneStep (Lanes.load_guest_ymm lhs m flag rip block)
    load_guest_sign_extended_bytes_xmm :
        lhs < block.value_count
        → LaneStep (Lanes.load_guest_sign_extended_bytes_xmm lhs m rip block)
    load_guest_sign_extended_dwords_xmm :
        lhs < block.value_count
        → LaneStep (Lanes.load_guest_sign_extended_dwords_xmm lhs m rip block)
    xor_guest_memory_xmm :
        lhs < block.value_count → LaneStep (Lanes.xor_guest_memory_xmm lhs m rip block)
    and_guest_memory_xmm :
        lhs < block.value_count → LaneStep (Lanes.and_guest_memory_xmm lhs m rip block)
    add_guest_memory_xmm :
        lhs < block.value_count → LaneStep (Lanes.add_guest_memory_xmm lhs m rip block)
    test_xmm_bits : LaneStep (Lanes.test_xmm_bits m n rip block)
    compare_equal_guest_bytes_xmm :
        lhs < block.value_count → LaneStep (Lanes.compare_equal_guest_bytes_xmm lhs m rip block)
    compare_equal_guest_qwords_xmm :
        lhs < block.value_count → LaneStep (Lanes.compare_equal_guest_qwords_xmm lhs m rip block)
    compare_equal_xmm_bytes : LaneStep (Lanes.compare_equal_xmm_bytes m n rip block)
    compare_equal_xmm_dwords : LaneStep (Lanes.compare_equal_xmm_dwords m n rip block)
    compare_equal_xmm_qwords : LaneStep (Lanes.compare_equal_xmm_qwords m n rip block)
    shift_left_xmm_dwords : LaneStep (Lanes.shift_left_xmm_dwords m n rip block)

  pub LaneStep-IsBuilding : (next : Block) → LaneStep next → IsBuilding block → IsBuilding next
  unfolding number Lanes.read_guest_xmm_lane Lanes.read_guest_ymm_upper_lane
      Lanes.write_guest_xmm_lane Lanes.write_guest_ymm_upper_lane Lanes.write_guest_xmm_byte
      Lanes.write_guest_xmm_dword Lanes.store_guest_xmm Lanes.store_guest_ymm Lanes.load_guest_xmm
      Lanes.load_guest_ymm Lanes.load_guest_sign_extended_bytes_xmm
      Lanes.load_guest_sign_extended_dwords_xmm Lanes.xor_guest_memory_xmm
      Lanes.and_guest_memory_xmm Lanes.add_guest_memory_xmm Lanes.test_xmm_bits
      Lanes.compare_equal_guest_bytes_xmm Lanes.compare_equal_guest_qwords_xmm
      Lanes.compare_equal_xmm_bytes Lanes.compare_equal_xmm_dwords Lanes.compare_equal_xmm_qwords
      Lanes.shift_left_xmm_dwords
  LaneStep-IsBuilding next step building = elim step as (λ reached taken. IsBuilding reached) [
    | read_guest_xmm_lane ↦
        define_value-IsBuilding block _ unused unused unused Opcode.read_guest_xmm_lane refl refl
          refl building
    | read_guest_ymm_upper_lane ↦
        define_value-IsBuilding block _ unused unused unused Opcode.read_guest_ymm_upper_lane refl
          refl refl building
    | write_guest_xmm_lane a ↦
        append-IsBuilding block _ (used a) unused unused Opcode.write_guest_xmm_lane refl refl refl
          building
    | write_guest_ymm_upper_lane a ↦
        append-IsBuilding block _ (used a) unused unused Opcode.write_guest_ymm_upper_lane refl refl
          refl building
    | write_guest_xmm_byte a ↦
        append-IsBuilding block _ (used a) unused unused Opcode.write_guest_xmm_byte refl refl refl
          building
    | write_guest_xmm_dword a ↦
        append-IsBuilding block _ (used a) unused unused Opcode.write_guest_xmm_dword refl refl refl
          building
    | store_guest_xmm a ↦
        append-IsBuilding block _ (used a) unused unused Opcode.store_guest_xmm refl refl refl
          building
    | store_guest_ymm a ↦
        append-IsBuilding block _ (used a) unused unused Opcode.store_guest_ymm refl refl refl
          building
    | load_guest_xmm a ↦
        append-IsBuilding block _ (used a) unused unused Opcode.load_guest_xmm refl refl refl
          building
    | load_guest_ymm a ↦
        append-IsBuilding block _ (used a) unused unused Opcode.load_guest_ymm refl refl refl
          building
    | load_guest_sign_extended_bytes_xmm a ↦
        append-IsBuilding block _ (used a) unused unused Opcode.load_guest_sign_extended_bytes_xmm
          refl refl refl building
    | load_guest_sign_extended_dwords_xmm a ↦
        append-IsBuilding block _ (used a) unused unused Opcode.load_guest_sign_extended_dwords_xmm
          refl refl refl building
    | xor_guest_memory_xmm a ↦
        append-IsBuilding block _ (used a) unused unused Opcode.xor_guest_memory_xmm refl refl refl
          building
    | and_guest_memory_xmm a ↦
        append-IsBuilding block _ (used a) unused unused Opcode.and_guest_memory_xmm refl refl refl
          building
    | add_guest_memory_xmm a ↦
        append-IsBuilding block _ (used a) unused unused Opcode.add_guest_memory_xmm refl refl refl
          building
    | test_xmm_bits ↦
        append-IsBuilding block _ unused unused unused Opcode.test_xmm_bits refl refl refl building
    | compare_equal_guest_bytes_xmm a ↦
        append-IsBuilding block _ (used a) unused unused Opcode.compare_equal_guest_bytes_xmm refl
          refl refl building
    | compare_equal_guest_qwords_xmm a ↦
        append-IsBuilding block _ (used a) unused unused Opcode.compare_equal_guest_qwords_xmm refl
          refl refl building
    | compare_equal_xmm_bytes ↦
        append-IsBuilding block _ unused unused unused Opcode.compare_equal_xmm_bytes refl refl refl
          building
    | compare_equal_xmm_dwords ↦
        append-IsBuilding block _ unused unused unused Opcode.compare_equal_xmm_dwords refl refl
          refl building
    | compare_equal_xmm_qwords ↦
        append-IsBuilding block _ unused unused unused Opcode.compare_equal_xmm_qwords refl refl
          refl building
    | shift_left_xmm_dwords ↦
        append-IsBuilding block _ unused unused unused Opcode.shift_left_xmm_dwords refl refl refl
          building
  ]
