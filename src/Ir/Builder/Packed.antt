-- ===== src/Ir/Builder/Packed.antt =====
-- Builder of src/ir/IR.cpp: packed arithmetic, conversions and rearrangements of vectors.
pub mod Steps
use rosa.Prelude.{ℕ, Bool, some, if◌then◌else◌}
use rosa.Flags.Select.{Width, i8, i16, i32, i64}
use rosa.Ir.{Opcode, ExitKind, Block}
use rosa.Ir.Builder.{at, append, define_value}

unfoldable pub add_xmm_words : (destination source rip : ℕ) → Block → Block
add_xmm_words destination source rip = append (record (at Opcode.add_xmm_words i16 rip) {
  guest_xmm_register = some destination;
  source_guest_xmm_register = some source;
})

unfoldable pub compare_packed_double_xmm : (destination source predicate rip : ℕ) → Block → Block
compare_packed_double_xmm destination source predicate rip =
    append (record (at Opcode.compare_packed_double_xmm i64 rip) {
      guest_xmm_register = some destination;
      source_guest_xmm_register = some source;
      immediate = predicate;
    })

unfoldable pub arithmetic_packed_double_xmm : (destination source kind rip : ℕ) → Block → Block
arithmetic_packed_double_xmm destination source kind rip =
    append (record (at Opcode.arithmetic_packed_double_xmm i64 rip) {
      guest_xmm_register = some destination;
      source_guest_xmm_register = some source;
      immediate = kind;
    })

unfoldable pub arithmetic_guest_memory_packed_double_xmm :
    (address destination kind rip : ℕ) → Block → Block
arithmetic_guest_memory_packed_double_xmm address destination kind rip =
    append (record (at Opcode.arithmetic_guest_memory_packed_double_xmm i64 rip) {
      lhs = some address;
      guest_xmm_register = some destination;
      immediate = kind;
    })

unfoldable pub unpack_high_packed_single_xmm : (destination source rip : ℕ) → Block → Block
unpack_high_packed_single_xmm destination source rip =
    append (record (at Opcode.unpack_high_packed_single_xmm i64 rip) {
      guest_xmm_register = some destination;
      source_guest_xmm_register = some source;
    })

unfoldable pub unpack_high_guest_packed_single_xmm : (address destination rip : ℕ) → Block → Block
unpack_high_guest_packed_single_xmm address destination rip =
    append (record (at Opcode.unpack_high_guest_packed_single_xmm i64 rip) {
      lhs = some address;
      guest_xmm_register = some destination;
    })

unfoldable pub horizontal_add_packed_double_xmm : (destination source rip : ℕ) → Block → Block
horizontal_add_packed_double_xmm destination source rip =
    append (record (at Opcode.horizontal_add_packed_double_xmm i64 rip) {
      guest_xmm_register = some destination;
      source_guest_xmm_register = some source;
    })

unfoldable pub horizontal_add_guest_packed_double_xmm :
    (address destination rip : ℕ) → Block → Block
horizontal_add_guest_packed_double_xmm address destination rip =
    append (record (at Opcode.horizontal_add_guest_packed_double_xmm i64 rip) {
      lhs = some address;
      guest_xmm_register = some destination;
    })

unfoldable pub unpack_low_packed_single_xmm : (destination source rip : ℕ) → Block → Block
unpack_low_packed_single_xmm destination source rip =
    append (record (at Opcode.unpack_low_packed_single_xmm i64 rip) {
      guest_xmm_register = some destination;
      source_guest_xmm_register = some source;
    })

unfoldable pub unpack_low_guest_packed_single_xmm : (address destination rip : ℕ) → Block → Block
unpack_low_guest_packed_single_xmm address destination rip =
    append (record (at Opcode.unpack_low_guest_packed_single_xmm i64 rip) {
      lhs = some address;
      guest_xmm_register = some destination;
    })

unfoldable pub update_unordered_double_flags :
    (destination_bits source_bits rip : ℕ) → Block → Block
update_unordered_double_flags destination_bits source_bits rip =
    append (record (at Opcode.update_unordered_double_flags i64 rip) {
      lhs = some destination_bits;
      rhs = some source_bits;
    })

unfoldable pub update_unordered_float_flags : (destination_bits source_bits rip : ℕ) → Block → Block
update_unordered_float_flags destination_bits source_bits rip =
    append (record (at Opcode.update_unordered_float_flags i32 rip) {
      lhs = some destination_bits;
      rhs = some source_bits;
    })

unfoldable pub convert_int_to_double_xmm :
    (value destination : ℕ) (width : Width) (rip : ℕ) → Block → Block
convert_int_to_double_xmm value destination width rip =
    append (record (at Opcode.convert_int_to_double_xmm width rip) {
      lhs = some value;
      guest_xmm_register = some destination;
    })

unfoldable pub convert_double_to_int :
    (bits destination : ℕ) (width : Width) (rip : ℕ) → Block → Block
convert_double_to_int bits destination width rip =
    append (record (at Opcode.convert_double_to_int width rip) {
      lhs = some bits;
      guest_register = some destination;
    })

unfoldable pub convert_float_to_double_xmm : (value destination rip : ℕ) → Block → Block
convert_float_to_double_xmm value destination rip =
    append (record (at Opcode.convert_float_to_double_xmm i32 rip) {
      lhs = some value;
      guest_xmm_register = some destination;
    })

unfoldable pub convert_int32x2_to_double_xmm : (low_bits destination rip : ℕ) → Block → Block
convert_int32x2_to_double_xmm low_bits destination rip =
    append (record (at Opcode.convert_int32x2_to_double_xmm i64 rip) {
      lhs = some low_bits;
      guest_xmm_register = some destination;
    })

unfoldable pub scalar_double_xmm : (source_bits destination kind rip : ℕ) → Block → Block
scalar_double_xmm source_bits destination kind rip =
    append (record (at Opcode.scalar_double_xmm i64 rip) {
      lhs = some source_bits;
      guest_xmm_register = some destination;
      immediate = kind;
    })

unfoldable pub add_xmm_dwords : (destination source rip : ℕ) → Block → Block
add_xmm_dwords destination source rip = append (record (at Opcode.add_xmm_dwords i32 rip) {
  guest_xmm_register = some destination;
  source_guest_xmm_register = some source;
})

unfoldable pub horizontal_add_xmm_dwords : (destination source rip : ℕ) → Block → Block
horizontal_add_xmm_dwords destination source rip =
    append (record (at Opcode.horizontal_add_xmm_dwords i32 rip) {
      guest_xmm_register = some destination;
      source_guest_xmm_register = some source;
    })

unfoldable pub and_not_xmm : (destination source rip : ℕ) → Block → Block
and_not_xmm destination source rip = append (record (at Opcode.and_not_xmm i64 rip) {
  guest_xmm_register = some destination;
  source_guest_xmm_register = some source;
})

unfoldable pub move_xmm_byte_mask : (destination source rip : ℕ) → Block → Block
move_xmm_byte_mask destination source rip = append (record (at Opcode.move_xmm_byte_mask i32 rip) {
  guest_register = some destination;
  guest_xmm_register = some source;
})

unfoldable pub shuffle_xmm_bytes : (destination source rip : ℕ) → Block → Block
shuffle_xmm_bytes destination source rip = append (record (at Opcode.shuffle_xmm_bytes i8 rip) {
  guest_xmm_register = some destination;
  source_guest_xmm_register = some source;
})

unfoldable pub shuffle_guest_memory_xmm_bytes : (address destination rip : ℕ) → Block → Block
shuffle_guest_memory_xmm_bytes address destination rip =
    append (record (at Opcode.shuffle_xmm_bytes i8 rip) {
      lhs = some address;
      guest_xmm_register = some destination;
    })

unfoldable pub shuffle_xmm_dwords : (destination source control rip : ℕ) → Block → Block
shuffle_xmm_dwords destination source control rip =
    append (record (at Opcode.shuffle_xmm_dwords i32 rip) {
      guest_xmm_register = some destination;
      source_guest_xmm_register = some source;
      immediate = control;
    })

unfoldable pub align_right_xmm_bytes : (destination source count rip : ℕ) → Block → Block
align_right_xmm_bytes destination source count rip =
    append (record (at Opcode.align_right_xmm_bytes i8 rip) {
      guest_xmm_register = some destination;
      source_guest_xmm_register = some source;
      immediate = count;
    })

unfoldable pub blend_xmm_words : (destination source mask rip : ℕ) → Block → Block
blend_xmm_words destination source mask rip = append (record (at Opcode.blend_xmm_words i16 rip) {
  guest_xmm_register = some destination;
  source_guest_xmm_register = some source;
  immediate = mask;
})

unfoldable pub unpack_low_xmm_words : (destination source rip : ℕ) → Block → Block
unpack_low_xmm_words destination source rip =
    append (record (at Opcode.unpack_low_xmm_words i16 rip) {
      guest_xmm_register = some destination;
      source_guest_xmm_register = some source;
    })
