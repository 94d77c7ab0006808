-- ===== src/Ir/Builder/Memory.antt =====
-- Builder of src/ir/IR.cpp: loads, stores and read-modify-write operations on guest memory.
pub mod Steps
use rosa.Prelude.{ℕ, Bool, some, if◌then◌else◌}
use rosa.Flags.Select.{Width, i8, i16, i32, i64}
use rosa.Ir.{Opcode, ExitKind, Block}
use rosa.Ir.Builder.{at, append, define_value}

unfoldable pub load_guest : (address : ℕ) (width : Width) (rip : ℕ) → Block → ℕ × Block
load_guest address width rip =
    define_value (record (at Opcode.load_guest width rip) { lhs = some address })

unfoldable pub store_guest : (address value : ℕ) (width : Width) (rip : ℕ) → Block → Block
store_guest address value width rip =
    append (record (at Opcode.store_guest width rip) { lhs = some address; rhs = some value })

unfoldable pub push : (new_stack_pointer value : ℕ) (width : Width) (rip : ℕ) → Block → Block
push new_stack_pointer value width rip =
    append (record (at Opcode.push width rip) { lhs = some new_stack_pointer; rhs = some value })

unfoldable pub add_guest_memory : (address source : ℕ) (width : Width) (rip : ℕ) → Block → Block
add_guest_memory address source width rip =
    append (record (at Opcode.add_guest_memory width rip) { lhs = some address; rhs = some source })

unfoldable pub sub_guest_memory : (address source : ℕ) (width : Width) (rip : ℕ) → Block → Block
sub_guest_memory address source width rip =
    append (record (at Opcode.sub_guest_memory width rip) { lhs = some address; rhs = some source })

unfoldable pub or_guest_memory : (address source : ℕ) (width : Width) (rip : ℕ) → Block → Block
or_guest_memory address source width rip =
    append (record (at Opcode.or_guest_memory width rip) { lhs = some address; rhs = some source })

unfoldable pub and_guest_memory : (address source : ℕ) (width : Width) (rip : ℕ) → Block → Block
and_guest_memory address source width rip =
    append (record (at Opcode.and_guest_memory width rip) { lhs = some address; rhs = some source })

unfoldable pub shift_left_guest_memory :
    (address count : ℕ) (width : Width) (rip : ℕ) → Block → Block
shift_left_guest_memory address count width rip =
    append (record (at Opcode.shift_left_guest_memory width rip) {
      lhs = some address;
      immediate = count;
    })

unfoldable pub shift_right_logical_guest_memory :
    (address count : ℕ) (width : Width) (rip : ℕ) → Block → Block
shift_right_logical_guest_memory address count width rip =
    append (record (at Opcode.shift_right_guest_memory width rip) {
      lhs = some address;
      immediate = count;
    })

unfoldable pub increment_guest_memory : (address : ℕ) (width : Width) (rip : ℕ) → Block → Block
increment_guest_memory address width rip =
    append (record (at Opcode.increment_guest_memory width rip) { lhs = some address })

unfoldable pub decrement_guest_memory : (address : ℕ) (width : Width) (rip : ℕ) → Block → Block
decrement_guest_memory address width rip =
    append (record (at Opcode.decrement_guest_memory width rip) { lhs = some address })

unfoldable pub compare_exchange_guest_memory :
    (address source : ℕ) (width : Width) (rip : ℕ) → Block → Block
compare_exchange_guest_memory address source width rip =
    append (record (at Opcode.compare_exchange_guest_memory width rip) {
      lhs = some address;
      rhs = some source;
    })

unfoldable pub compare_exchange_guest_pair : (address rip : ℕ) → Block → Block
compare_exchange_guest_pair address rip =
    append (record (at Opcode.compare_exchange_guest_pair i64 rip) { lhs = some address })

unfoldable pub exchange_guest_memory :
    (address source destination : ℕ) (width : Width) (rip : ℕ) → Block → Block
exchange_guest_memory address source destination width rip =
    append (record (at Opcode.exchange_guest_memory width rip) {
      lhs = some address;
      rhs = some source;
      guest_register = some destination;
    })

unfoldable pub locked_add_guest_memory :
    (address source : ℕ) (width : Width) (rip : ℕ) → Block → Block
locked_add_guest_memory address source width rip =
    append (record (at Opcode.locked_add_guest_memory width rip) {
      lhs = some address;
      rhs = some source;
    })

unfoldable pub locked_exchange_add_guest_memory :
    (address source source_register : ℕ) (width : Width) (rip : ℕ) → Block → Block
locked_exchange_add_guest_memory address source source_register width rip =
    append (record (at Opcode.locked_exchange_add_guest_memory width rip) {
      lhs = some address;
      rhs = some source;
      guest_register = some source_register;
    })

unfoldable pub locked_increment_guest_memory :
    (address : ℕ) (width : Width) (rip : ℕ) → Block → Block
locked_increment_guest_memory address width rip =
    append (record (at Opcode.locked_increment_guest_memory width rip) { lhs = some address })

unfoldable pub locked_decrement_guest_memory :
    (address : ℕ) (width : Width) (rip : ℕ) → Block → Block
locked_decrement_guest_memory address width rip =
    append (record (at Opcode.locked_decrement_guest_memory width rip) { lhs = some address })

unfoldable pub locked_or_guest_memory :
    (address immediate : ℕ) (width : Width) (rip : ℕ) → Block → Block
locked_or_guest_memory address immediate width rip =
    append (record (at Opcode.locked_or_guest_memory width rip) {
      lhs = some address;
      rhs = some immediate;
    })

unfoldable pub locked_and_guest_memory :
    (address immediate : ℕ) (width : Width) (rip : ℕ) → Block → Block
locked_and_guest_memory address immediate width rip =
    append (record (at Opcode.locked_and_guest_memory width rip) {
      lhs = some address;
      rhs = some immediate;
    })

unfoldable pub locked_bit_set_guest_memory :
    (address bit_index : ℕ) (width : Width) (rip : ℕ) → Block → Block
locked_bit_set_guest_memory address bit_index width rip =
    append (record (at Opcode.locked_bit_set_guest_memory width rip) {
      lhs = some address;
      immediate = bit_index;
    })
