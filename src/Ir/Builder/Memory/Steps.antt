-- ===== src/Ir/Builder/Memory/Steps.antt =====
-- The calls of Builder that Ir/Builder/Memory models, as steps, and what they keep.
use rosa.Prelude.{ℕ, ◌<◌, Bool, refl}
use rosa.Flags.Select.{Width}
use rosa.Ir.{Opcode, Block, number}
use rosa.Ir.Builder.Memory
use rosa.Ir.Builder.Built.{IsBuilding, used, unused, append-IsBuilding, define_value-IsBuilding}

module _ (block : Block) (lhs rhs third : ℕ) (width : Width) (m n k rip : ℕ) (flag : Bool) where
  -- A call with these arguments, its values those of earlier calls.
  pub data MemoryStep : Block → Type 0 where
    load_guest : lhs < block.value_count → MemoryStep (Memory.load_guest lhs width rip block).1
    store_guest :
        lhs < block.value_count
        → rhs < block.value_count
        → MemoryStep (Memory.store_guest lhs rhs width rip block)
    push :
        lhs < block.value_count
        → rhs < block.value_count
        → MemoryStep (Memory.push lhs rhs width rip block)
    add_guest_memory :
        lhs < block.value_count
        → rhs < block.value_count
        → MemoryStep (Memory.add_guest_memory lhs rhs width rip block)
    sub_guest_memory :
        lhs < block.value_count
        → rhs < block.value_count
        → MemoryStep (Memory.sub_guest_memory lhs rhs width rip block)
    or_guest_memory :
        lhs < block.value_count
        → rhs < block.value_count
        → MemoryStep (Memory.or_guest_memory lhs rhs width rip block)
    and_guest_memory :
        lhs < block.value_count
        → rhs < block.value_count
        → MemoryStep (Memory.and_guest_memory lhs rhs width rip block)
    shift_left_guest_memory :
        lhs < block.value_count → MemoryStep (Memory.shift_left_guest_memory lhs m width rip block)
    shift_right_logical_guest_memory :
        lhs < block.value_count
        → MemoryStep (Memory.shift_right_logical_guest_memory lhs m width rip block)
    increment_guest_memory :
        lhs < block.value_count → MemoryStep (Memory.increment_guest_memory lhs width rip block)
    decrement_guest_memory :
        lhs < block.value_count → MemoryStep (Memory.decrement_guest_memory lhs width rip block)
    compare_exchange_guest_memory :
        lhs < block.value_count
        → rhs < block.value_count
        → MemoryStep (Memory.compare_exchange_guest_memory lhs rhs width rip block)
    compare_exchange_guest_pair :
        lhs < block.value_count → MemoryStep (Memory.compare_exchange_guest_pair lhs rip block)
    exchange_guest_memory :
        lhs < block.value_count
        → rhs < block.value_count
        → MemoryStep (Memory.exchange_guest_memory lhs rhs m width rip block)
    locked_add_guest_memory :
        lhs < block.value_count
        → rhs < block.value_count
        → MemoryStep (Memory.locked_add_guest_memory lhs rhs width rip block)
    locked_exchange_add_guest_memory :
        lhs < block.value_count
        → rhs < block.value_count
        → MemoryStep (Memory.locked_exchange_add_guest_memory lhs rhs m width rip block)
    locked_increment_guest_memory :
        lhs < block.value_count
        → MemoryStep (Memory.locked_increment_guest_memory lhs width rip block)
    locked_decrement_guest_memory :
        lhs < block.value_count
        → MemoryStep (Memory.locked_decrement_guest_memory lhs width rip block)
    locked_or_guest_memory :
        lhs < block.value_count
        → rhs < block.value_count
        → MemoryStep (Memory.locked_or_guest_memory lhs rhs width rip block)
    locked_and_guest_memory :
        lhs < block.value_count
        → rhs < block.value_count
        → MemoryStep (Memory.locked_and_guest_memory lhs rhs width rip block)
    locked_bit_set_guest_memory :
        lhs < block.value_count
        → MemoryStep (Memory.locked_bit_set_guest_memory lhs m width rip block)

  pub MemoryStep-IsBuilding : (next : Block) → MemoryStep next → IsBuilding block → IsBuilding next
  unfolding number Memory.load_guest Memory.store_guest Memory.push Memory.add_guest_memory
      Memory.sub_guest_memory Memory.or_guest_memory Memory.and_guest_memory
      Memory.shift_left_guest_memory Memory.shift_right_logical_guest_memory
      Memory.increment_guest_memory Memory.decrement_guest_memory
      Memory.compare_exchange_guest_memory Memory.compare_exchange_guest_pair
      Memory.exchange_guest_memory Memory.locked_add_guest_memory
      Memory.locked_exchange_add_guest_memory Memory.locked_increment_guest_memory
      Memory.locked_decrement_guest_memory Memory.locked_or_guest_memory
      Memory.locked_and_guest_memory Memory.locked_bit_set_guest_memory
  MemoryStep-IsBuilding next step building = elim step as (λ reached taken. IsBuilding reached) [
    | load_guest a ↦
        define_value-IsBuilding block _ (used a) unused unused Opcode.load_guest refl refl refl
          building
    | store_guest a b ↦
        append-IsBuilding block _ (used a) (used b) unused Opcode.store_guest refl refl refl
          building
    | push a b ↦
        append-IsBuilding block _ (used a) (used b) unused Opcode.push refl refl refl building
    | add_guest_memory a b ↦
        append-IsBuilding block _ (used a) (used b) unused Opcode.add_guest_memory refl refl refl
          building
    | sub_guest_memory a b ↦
        append-IsBuilding block _ (used a) (used b) unused Opcode.sub_guest_memory refl refl refl
          building
    | or_guest_memory a b ↦
        append-IsBuilding block _ (used a) (used b) unused Opcode.or_guest_memory refl refl refl
          building
    | and_guest_memory a b ↦
        append-IsBuilding block _ (used a) (used b) unused Opcode.and_guest_memory refl refl refl
          building
    | shift_left_guest_memory a ↦
        append-IsBuilding block _ (used a) unused unused Opcode.shift_left_guest_memory refl refl
          refl building
    | shift_right_logical_guest_memory a ↦
        append-IsBuilding block _ (used a) unused unused Opcode.shift_right_guest_memory refl refl
          refl building
    | increment_guest_memory a ↦
        append-IsBuilding block _ (used a) unused unused Opcode.increment_guest_memory refl refl
          refl building
    | decrement_guest_memory a ↦
        append-IsBuilding block _ (used a) unused unused Opcode.decrement_guest_memory refl refl
          refl building
    | compare_exchange_guest_memory a b ↦
        append-IsBuilding block _ (used a) (used b) unused Opcode.compare_exchange_guest_memory refl
          refl refl building
    | compare_exchange_guest_pair a ↦
        append-IsBuilding block _ (used a) unused unused Opcode.compare_exchange_guest_pair refl
          refl refl building
    | exchange_guest_memory a b ↦
        append-IsBuilding block _ (used a) (used b) unused Opcode.exchange_guest_memory refl refl
          refl building
    | locked_add_guest_memory a b ↦
        append-IsBuilding block _ (used a) (used b) unused Opcode.locked_add_guest_memory refl refl
          refl building
    | locked_exchange_add_guest_memory a b ↦
        append-IsBuilding block _ (used a) (used b) unused Opcode.locked_exchange_add_guest_memory
          refl refl refl building
    | locked_increment_guest_memory a ↦
        append-IsBuilding block _ (used a) unused unused Opcode.locked_increment_guest_memory refl
          refl refl building
    | locked_decrement_guest_memory a ↦
        append-IsBuilding block _ (used a) unused unused Opcode.locked_decrement_guest_memory refl
          refl refl building
    | locked_or_guest_memory a b ↦
        append-IsBuilding block _ (used a) (used b) unused Opcode.locked_or_guest_memory refl refl
          refl building
    | locked_and_guest_memory a b ↦
        append-IsBuilding block _ (used a) (used b) unused Opcode.locked_and_guest_memory refl refl
          refl building
    | locked_bit_set_guest_memory a ↦
        append-IsBuilding block _ (used a) unused unused Opcode.locked_bit_set_guest_memory refl
          refl refl building
  ]
