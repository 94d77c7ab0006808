-- ===== src/Ir/Builder/Special.antt =====
-- Builder of src/ir/IR.cpp: bit scans, repeated string operations, divisions, fences and machine state.
pub mod Steps
use rosa.Prelude.{ℕ, Bool, some, if◌then◌else◌}
use rosa.Flags.Select.{Width, i8, i16, i32, i64}
use rosa.Ir.{Opcode, ExitKind, Block}
use rosa.Ir.Builder.{at, append, define_value}

unfoldable pub bit_scan_forward : (destination source : ℕ) (width : Width) (rip : ℕ) → Block → Block
bit_scan_forward destination source width rip =
    append (record (at Opcode.bit_scan_forward width rip) {
      guest_register = some destination;
      immediate = source;
    })

unfoldable pub bit_scan_reverse : (destination source : ℕ) (width : Width) (rip : ℕ) → Block → Block
bit_scan_reverse destination source width rip =
    append (record (at Opcode.bit_scan_reverse width rip) {
      guest_register = some destination;
      immediate = source;
    })

unfoldable pub repeat_move_byte : (rip : ℕ) → Block → Block
repeat_move_byte rip = append (at Opcode.repeat_move_byte i8 rip)

unfoldable pub repeat_store : (width : Width) (rip : ℕ) → Block → Block
repeat_store width rip = append (at Opcode.repeat_store width rip)

unfoldable pub divide_unsigned_byte : (divisor rip : ℕ) → Block → Block
divide_unsigned_byte divisor rip =
    append (record (at Opcode.divide_unsigned_byte i8 rip) { lhs = some divisor })

unfoldable pub divide_unsigned_dword : (divisor rip : ℕ) → Block → Block
divide_unsigned_dword divisor rip =
    append (record (at Opcode.divide_unsigned_dword i32 rip) { lhs = some divisor })

unfoldable pub divide_unsigned_qword : (divisor rip : ℕ) → Block → Block
divide_unsigned_qword divisor rip =
    append (record (at Opcode.divide_unsigned_qword i64 rip) { lhs = some divisor })

unfoldable pub divide_signed_dword : (divisor rip : ℕ) → Block → Block
divide_signed_dword divisor rip =
    append (record (at Opcode.divide_signed_dword i32 rip) { lhs = some divisor })

unfoldable pub store_guest_idtr : (address rip : ℕ) → Block → Block
store_guest_idtr address rip =
    append (record (at Opcode.store_guest_idtr i64 rip) { lhs = some address })

unfoldable pub load_fence : (rip : ℕ) → Block → Block
load_fence rip = append (at Opcode.load_fence i64 rip)

unfoldable pub write_direction_flag : (is_set : Bool) (rip : ℕ) → Block → Block
write_direction_flag is_set rip =
    append (record (at Opcode.write_direction_flag i64 rip) { immediate = if is_set then 1 else 0 })

unfoldable pub store_fence : (rip : ℕ) → Block → Block
store_fence rip = append (at Opcode.store_fence i64 rip)

unfoldable pub read_timestamp_counter : (rip : ℕ) → Block → Block
read_timestamp_counter rip = append (at Opcode.read_timestamp_counter i64 rip)

unfoldable pub cpuid : (rip : ℕ) → Block → Block
cpuid rip = append (at Opcode.cpuid i64 rip)
