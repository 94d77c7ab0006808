-- ===== src/Ir/Builder/Lanes.antt =====
-- Builder of src/ir/IR.cpp: lanes of vector registers, and vector loads, stores and comparisons.
pub mod Steps
use rosa.Prelude.{ℕ, Bool, some, if◌then◌else◌}
use rosa.Flags.Select.{Width, i8, i16, i32, i64}
use rosa.Ir.{Opcode, ExitKind, Block}
use rosa.Ir.Builder.{at, append, define_value}

unfoldable pub read_guest_xmm_lane : (reg : ℕ) (high : Bool) (rip : ℕ) → Block → ℕ × Block
read_guest_xmm_lane reg high rip = define_value (record (at Opcode.read_guest_xmm_lane i64 rip) {
  guest_xmm_register = some reg;
  immediate = if high then 1 else 0;
})

unfoldable pub read_guest_ymm_upper_lane : (reg : ℕ) (high : Bool) (rip : ℕ) → Block → ℕ × Block
read_guest_ymm_upper_lane reg high rip =
    define_value (record (at Opcode.read_guest_ymm_upper_lane i64 rip) {
      guest_xmm_register = some reg;
      immediate = if high then 1 else 0;
    })

unfoldable pub write_guest_xmm_lane : (reg : ℕ) (high : Bool) (value rip : ℕ) → Block → Block
write_guest_xmm_lane reg high value rip = append (record (at Opcode.write_guest_xmm_lane i64 rip) {
  lhs = some value;
  guest_xmm_register = some reg;
  immediate = if high then 1 else 0;
})

unfoldable pub write_guest_ymm_upper_lane : (reg : ℕ) (high : Bool) (value rip : ℕ) → Block → Block
write_guest_ymm_upper_lane reg high value rip =
    append (record (at Opcode.write_guest_ymm_upper_lane i64 rip) {
      lhs = some value;
      guest_xmm_register = some reg;
      immediate = if high then 1 else 0;
    })

unfoldable pub write_guest_xmm_byte : (reg lane value rip : ℕ) → Block → Block
write_guest_xmm_byte reg lane value rip = append (record (at Opcode.write_guest_xmm_byte i8 rip) {
  lhs = some value;
  guest_xmm_register = some reg;
  immediate = lane;
})

unfoldable pub write_guest_xmm_dword : (reg lane value rip : ℕ) → Block → Block
write_guest_xmm_dword reg lane value rip =
    append (record (at Opcode.write_guest_xmm_dword i32 rip) {
      lhs = some value;
      guest_xmm_register = some reg;
      immediate = lane;
    })

unfoldable pub store_guest_xmm : (address reg : ℕ) (aligned : Bool) (rip : ℕ) → Block → Block
store_guest_xmm address reg aligned rip = append (record (at Opcode.store_guest_xmm i64 rip) {
  lhs = some address;
  guest_xmm_register = some reg;
  immediate = if aligned then 1 else 0;
})

unfoldable pub store_guest_ymm : (address reg : ℕ) (aligned : Bool) (rip : ℕ) → Block → Block
store_guest_ymm address reg aligned rip = append (record (at Opcode.store_guest_ymm i64 rip) {
  lhs = some address;
  guest_xmm_register = some reg;
  immediate = if aligned then 1 else 0;
})

unfoldable pub load_guest_xmm : (address reg : ℕ) (aligned : Bool) (rip : ℕ) → Block → Block
load_guest_xmm address reg aligned rip = append (record (at Opcode.load_guest_xmm i64 rip) {
  lhs = some address;
  guest_xmm_register = some reg;
  immediate = if aligned then 1 else 0;
})

unfoldable pub load_guest_ymm : (address reg : ℕ) (aligned : Bool) (rip : ℕ) → Block → Block
load_guest_ymm address reg aligned rip = append (record (at Opcode.load_guest_ymm i64 rip) {
  lhs = some address;
  guest_xmm_register = some reg;
  immediate = if aligned then 1 else 0;
})

unfoldable pub load_guest_sign_extended_bytes_xmm : (address reg rip : ℕ) → Block → Block
load_guest_sign_extended_bytes_xmm address reg rip =
    append (record (at Opcode.load_guest_sign_extended_bytes_xmm i64 rip) {
      lhs = some address;
      guest_xmm_register = some reg;
    })

unfoldable pub load_guest_sign_extended_dwords_xmm : (address reg rip : ℕ) → Block → Block
load_guest_sign_extended_dwords_xmm address reg rip =
    append (record (at Opcode.load_guest_sign_extended_dwords_xmm i64 rip) {
      lhs = some address;
      guest_xmm_register = some reg;
    })

unfoldable pub xor_guest_memory_xmm : (address reg rip : ℕ) → Block → Block
xor_guest_memory_xmm address reg rip = append (record (at Opcode.xor_guest_memory_xmm i64 rip) {
  lhs = some address;
  guest_xmm_register = some reg;
})

unfoldable pub and_guest_memory_xmm : (address reg rip : ℕ) → Block → Block
and_guest_memory_xmm address reg rip = append (record (at Opcode.and_guest_memory_xmm i64 rip) {
  lhs = some address;
  guest_xmm_register = some reg;
})

unfoldable pub add_guest_memory_xmm : (address reg rip : ℕ) → Block → Block
add_guest_memory_xmm address reg rip = append (record (at Opcode.add_guest_memory_xmm i64 rip) {
  lhs = some address;
  guest_xmm_register = some reg;
})

unfoldable pub test_xmm_bits : (destination source rip : ℕ) → Block → Block
test_xmm_bits destination source rip = append (record (at Opcode.test_xmm_bits i64 rip) {
  guest_xmm_register = some destination;
  source_guest_xmm_register = some source;
})

unfoldable pub compare_equal_guest_bytes_xmm : (address reg rip : ℕ) → Block → Block
compare_equal_guest_bytes_xmm address reg rip =
    append (record (at Opcode.compare_equal_guest_bytes_xmm i64 rip) {
      lhs = some address;
      guest_xmm_register = some reg;
    })

unfoldable pub compare_equal_guest_qwords_xmm : (address reg rip : ℕ) → Block → Block
compare_equal_guest_qwords_xmm address reg rip =
    append (record (at Opcode.compare_equal_guest_qwords_xmm i64 rip) {
      lhs = some address;
      guest_xmm_register = some reg;
    })

unfoldable pub compare_equal_xmm_bytes : (destination source rip : ℕ) → Block → Block
compare_equal_xmm_bytes destination source rip =
    append (record (at Opcode.compare_equal_xmm_bytes i64 rip) {
      guest_xmm_register = some destination;
      source_guest_xmm_register = some source;
    })

unfoldable pub compare_equal_xmm_dwords : (destination source rip : ℕ) → Block → Block
compare_equal_xmm_dwords destination source rip =
    append (record (at Opcode.compare_equal_xmm_dwords i32 rip) {
      guest_xmm_register = some destination;
      source_guest_xmm_register = some source;
    })

unfoldable pub compare_equal_xmm_qwords : (destination source rip : ℕ) → Block → Block
compare_equal_xmm_qwords destination source rip =
    append (record (at Opcode.compare_equal_xmm_qwords i64 rip) {
      guest_xmm_register = some destination;
      source_guest_xmm_register = some source;
    })

unfoldable pub shift_left_xmm_dwords : (destination count rip : ℕ) → Block → Block
shift_left_xmm_dwords destination count rip =
    append (record (at Opcode.shift_left_xmm_dwords i32 rip) {
      guest_xmm_register = some destination;
      immediate = count;
    })
