-- ===== src/Ir/Builder/Special/Steps.antt =====
-- The calls of Builder that Ir/Builder/Special models, as steps, and what they keep.
use rosa.Prelude.{ℕ, ◌<◌, Bool, refl}
use rosa.Flags.Select.{Width}
use rosa.Ir.{Opcode, Block, number}
use rosa.Ir.Builder.Special
use rosa.Ir.Builder.Built.{IsBuilding, used, unused, append-IsBuilding}

module _ (block : Block) (lhs rhs third : ℕ) (width : Width) (m n k rip : ℕ) (flag : Bool) where
  -- A call with these arguments, its values those of earlier calls.
  pub data SpecialStep : Block → Type 0 where
    bit_scan_forward : SpecialStep (Special.bit_scan_forward m n width rip block)
    bit_scan_reverse : SpecialStep (Special.bit_scan_reverse m n width rip block)
    repeat_move_byte : SpecialStep (Special.repeat_move_byte rip block)
    repeat_store : SpecialStep (Special.repeat_store width rip block)
    divide_unsigned_byte :
        lhs < block.value_count → SpecialStep (Special.divide_unsigned_byte lhs rip block)
    divide_unsigned_dword :
        lhs < block.value_count → SpecialStep (Special.divide_unsigned_dword lhs rip block)
    divide_unsigned_qword :
        lhs < block.value_count → SpecialStep (Special.divide_unsigned_qword lhs rip block)
    divide_signed_dword :
        lhs < block.value_count → SpecialStep (Special.divide_signed_dword lhs rip block)
    store_guest_idtr :
        lhs < block.value_count → SpecialStep (Special.store_guest_idtr lhs rip block)
    load_fence : SpecialStep (Special.load_fence rip block)
    write_direction_flag : SpecialStep (Special.write_direction_flag flag rip block)
    store_fence : SpecialStep (Special.store_fence rip block)
    read_timestamp_counter : SpecialStep (Special.read_timestamp_counter rip block)
    cpuid : SpecialStep (Special.cpuid rip block)

  pub SpecialStep-IsBuilding :
      (next : Block) → SpecialStep next → IsBuilding block → IsBuilding next
  unfolding number Special.bit_scan_forward Special.bit_scan_reverse Special.repeat_move_byte
      Special.repeat_store Special.divide_unsigned_byte Special.divide_unsigned_dword
      Special.divide_unsigned_qword Special.divide_signed_dword Special.store_guest_idtr
      Special.load_fence Special.write_direction_flag Special.store_fence
      Special.read_timestamp_counter Special.cpuid
  SpecialStep-IsBuilding next step building = elim step as (λ reached taken. IsBuilding reached) [
    | bit_scan_forward ↦
        append-IsBuilding block _ unused unused unused Opcode.bit_scan_forward refl refl refl
          building
    | bit_scan_reverse ↦
        append-IsBuilding block _ unused unused unused Opcode.bit_scan_reverse refl refl refl
          building
    | repeat_move_byte ↦
        append-IsBuilding block _ unused unused unused Opcode.repeat_move_byte refl refl refl
          building
    | repeat_store ↦
        append-IsBuilding block _ unused unused unused Opcode.repeat_store refl refl refl building
    | divide_unsigned_byte a ↦
        append-IsBuilding block _ (used a) unused unused Opcode.divide_unsigned_byte refl refl refl
          building
    | divide_unsigned_dword a ↦
        append-IsBuilding block _ (used a) unused unused Opcode.divide_unsigned_dword refl refl refl
          building
    | divide_unsigned_qword a ↦
        append-IsBuilding block _ (used a) unused unused Opcode.divide_unsigned_qword refl refl refl
          building
    | divide_signed_dword a ↦
        append-IsBuilding block _ (used a) unused unused Opcode.divide_signed_dword refl refl refl
          building
    | store_guest_idtr a ↦
        append-IsBuilding block _ (used a) unused unused Opcode.store_guest_idtr refl refl refl
          building
    | load_fence ↦
        append-IsBuilding block _ unused unused unused Opcode.load_fence refl refl refl building
    | write_direction_flag ↦
        append-IsBuilding block _ unused unused unused Opcode.write_direction_flag refl refl refl
          building
    | store_fence ↦
        append-IsBuilding block _ unused unused unused Opcode.store_fence refl refl refl building
    | read_timestamp_counter ↦
        append-IsBuilding block _ unused unused unused Opcode.read_timestamp_counter refl refl refl
          building
    | cpuid ↦ append-IsBuilding block _ unused unused unused Opcode.cpuid refl refl refl building
  ]
