-- ===== src/Ir.antt =====
-- The intermediate representation (src/ir/IR.h): operations on values, which are numbered in the order
-- of their definitions, and on the guest's state.
pub mod Optimization
pub mod Meaning
pub mod Builder
mod Examples
use rosa.Prelude.{
  ℕ, zero, suc, ◌+◌, ◌-◌, ◌*◌, ◌/◌, ◌%◌, ◌^◌, ◌≤◌, ◌<◌, min, max, bit_and, bit_or, bit_xor, ◌≡◌,
  refl, sym, ap, ◌∙◌, subst, ◌≢◌, ◌↔◌, ◌⊎◌, inl, inr, Bool, true, false, not, ◌&&◌, ◌||◌, Option,
  none, some, List, [], ◌∷◌, ◌++◌, arith, ltb, leb, ◌==◌, if◌then◌else◌, Bool-cases, Option-cases,
  length, get_elem?, set, take, drop, replicate, All, u32, u64, u32_max, u64_max,
}
use rosa.Flags.Select.{Width, i8, i16, i32, i64}

pub data Opcode : Type 0 where
  constant read_guest_reg read_guest_gs_base write_guest_reg conditional_move_guest_reg
        read_guest_xmm_lane read_guest_ymm_upper_lane write_guest_xmm_lane
        write_guest_ymm_upper_lane write_guest_xmm_byte write_guest_xmm_dword add sub shift_left
        shift_right_logical shift_right_arithmetic multiply_low multiply_high_unsigned
        multiply_high_signed shift_right_double and or xor sign_extend32 byte_swap
        evaluate_condition load_guest store_guest store_guest_xmm store_guest_ymm load_guest_xmm
        load_guest_ymm load_guest_sign_extended_bytes_xmm load_guest_sign_extended_dwords_xmm
        xor_guest_memory_xmm and_guest_memory_xmm add_guest_memory_xmm test_xmm_bits
        compare_equal_guest_bytes_xmm compare_equal_guest_qwords_xmm compare_equal_xmm_bytes
        compare_equal_xmm_dwords compare_equal_xmm_qwords shift_left_xmm_dwords add_xmm_words
        compare_packed_double_xmm arithmetic_packed_double_xmm
        arithmetic_guest_memory_packed_double_xmm unpack_high_packed_single_xmm
        unpack_high_guest_packed_single_xmm horizontal_add_packed_double_xmm
        horizontal_add_guest_packed_double_xmm unpack_low_packed_single_xmm
        unpack_low_guest_packed_single_xmm update_unordered_double_flags
        update_unordered_float_flags convert_int_to_double_xmm convert_double_to_int
        convert_float_to_double_xmm convert_int32x2_to_double_xmm scalar_double_xmm add_xmm_dwords
        horizontal_add_xmm_dwords and_not_xmm move_xmm_byte_mask shuffle_xmm_bytes
        shuffle_xmm_dwords align_right_xmm_bytes blend_xmm_words unpack_low_xmm_words
        bit_scan_forward bit_scan_reverse repeat_move_byte repeat_store divide_unsigned_byte
        divide_unsigned_dword divide_unsigned_qword divide_signed_dword push add_guest_memory
        sub_guest_memory or_guest_memory and_guest_memory shift_left_guest_memory
        shift_right_guest_memory increment_guest_memory decrement_guest_memory
        compare_exchange_guest_memory compare_exchange_guest_pair exchange_guest_memory
        locked_add_guest_memory locked_exchange_add_guest_memory locked_increment_guest_memory
        locked_decrement_guest_memory locked_or_guest_memory locked_and_guest_memory
        store_guest_idtr load_fence write_direction_flag store_fence read_timestamp_counter cpuid
        update_add_flags update_adc_flags update_sbb_flags update_inc_flags update_dec_flags
        update_sub_flags update_logic_flags update_shift_left_flags update_shift_right_flags
        update_shift_right_arithmetic_flags update_rotate_left_flags update_rotate_right_flags
        update_multiply_flags update_signed_multiply_flags update_shift_right_double_flags
        update_bit_test_flags locked_bit_set_guest_memory exit_block :
      Opcode

-- The enumerator's value.
unfoldable pub number : Opcode → ℕ
number constant = 0
number read_guest_reg = 1
number read_guest_gs_base = 2
number write_guest_reg = 3
number conditional_move_guest_reg = 4
number read_guest_xmm_lane = 5
number read_guest_ymm_upper_lane = 6
number write_guest_xmm_lane = 7
number write_guest_ymm_upper_lane = 8
number write_guest_xmm_byte = 9
number write_guest_xmm_dword = 10
number add = 11
number sub = 12
number shift_left = 13
number shift_right_logical = 14
number shift_right_arithmetic = 15
number multiply_low = 16
number multiply_high_unsigned = 17
number multiply_high_signed = 18
number shift_right_double = 19
number and = 20
number or = 21
number xor = 22
number sign_extend32 = 23
number byte_swap = 24
number evaluate_condition = 25
number load_guest = 26
number store_guest = 27
number store_guest_xmm = 28
number store_guest_ymm = 29
number load_guest_xmm = 30
number load_guest_ymm = 31
number load_guest_sign_extended_bytes_xmm = 32
number load_guest_sign_extended_dwords_xmm = 33
number xor_guest_memory_xmm = 34
number and_guest_memory_xmm = 35
number add_guest_memory_xmm = 36
number test_xmm_bits = 37
number compare_equal_guest_bytes_xmm = 38
number compare_equal_guest_qwords_xmm = 39
number compare_equal_xmm_bytes = 40
number compare_equal_xmm_dwords = 41
number compare_equal_xmm_qwords = 42
number shift_left_xmm_dwords = 43
number add_xmm_words = 44
number compare_packed_double_xmm = 45
number arithmetic_packed_double_xmm = 46
number arithmetic_guest_memory_packed_double_xmm = 47
number unpack_high_packed_single_xmm = 48
number unpack_high_guest_packed_single_xmm = 49
number horizontal_add_packed_double_xmm = 50
number horizontal_add_guest_packed_double_xmm = 51
number unpack_low_packed_single_xmm = 52
number unpack_low_guest_packed_single_xmm = 53
number update_unordered_double_flags = 54
number update_unordered_float_flags = 55
number convert_int_to_double_xmm = 56
number convert_double_to_int = 57
number convert_float_to_double_xmm = 58
number convert_int32x2_to_double_xmm = 59
number scalar_double_xmm = 60
number add_xmm_dwords = 61
number horizontal_add_xmm_dwords = 62
number and_not_xmm = 63
number move_xmm_byte_mask = 64
number shuffle_xmm_bytes = 65
number shuffle_xmm_dwords = 66
number align_right_xmm_bytes = 67
number blend_xmm_words = 68
number unpack_low_xmm_words = 69
number bit_scan_forward = 70
number bit_scan_reverse = 71
number repeat_move_byte = 72
number repeat_store = 73
number divide_unsigned_byte = 74
number divide_unsigned_dword = 75
number divide_unsigned_qword = 76
number divide_signed_dword = 77
number push = 78
number add_guest_memory = 79
number sub_guest_memory = 80
number or_guest_memory = 81
number and_guest_memory = 82
number shift_left_guest_memory = 83
number shift_right_guest_memory = 84
number increment_guest_memory = 85
number decrement_guest_memory = 86
number compare_exchange_guest_memory = 87
number compare_exchange_guest_pair = 88
number exchange_guest_memory = 89
number locked_add_guest_memory = 90
number locked_exchange_add_guest_memory = 91
number locked_increment_guest_memory = 92
number locked_decrement_guest_memory = 93
number locked_or_guest_memory = 94
number locked_and_guest_memory = 95
number store_guest_idtr = 96
number load_fence = 97
number write_direction_flag = 98
number store_fence = 99
number read_timestamp_counter = 100
number cpuid = 101
number update_add_flags = 102
number update_adc_flags = 103
number update_sbb_flags = 104
number update_inc_flags = 105
number update_dec_flags = 106
number update_sub_flags = 107
number update_logic_flags = 108
number update_shift_left_flags = 109
number update_shift_right_flags = 110
number update_shift_right_arithmetic_flags = 111
number update_rotate_left_flags = 112
number update_rotate_right_flags = 113
number update_multiply_flags = 114
number update_signed_multiply_flags = 115
number update_shift_right_double_flags = 116
number update_bit_test_flags = 117
number locked_bit_set_guest_memory = 118
number exit_block = 119

-- The number of bits, which is the enumerator's value.
unfoldable pub bits : Width → ℕ
bits i8 = 8
bits i16 = 16
bits i32 = 32
bits i64 = 64

pub data ExitKind : Type 0 where
  returns direct conditional calls system_call : ExitKind

-- A guest register is its number, a condition its enumerator's value.
pub record Operation : Type 0 where
  pub opcode : Opcode
  pub width : Width
  pub guest_rip : ℕ
  pub result : Option ℕ
  pub lhs : Option ℕ
  pub rhs : Option ℕ
  pub third : Option ℕ
  pub guest_register : Option ℕ
  pub guest_xmm_register : Option ℕ
  pub source_guest_xmm_register : Option ℕ
  pub target : Option ℕ
  pub fallthrough : Option ℕ
  pub condition : Option ℕ
  pub exit_kind : ExitKind
  pub immediate : ℕ

pub record Block : Type 0 where
  pub start : ℕ
  pub operations : List Operation
  pub value_count : ℕ

-- operation.opcode == opcode
unfoldable pub is : Opcode → Operation → Bool
unfolding number
is opcode operation = number operation.opcode == number opcode

unfoldable pub has_width : Width → Operation → Bool
unfolding bits
has_width width operation = bits operation.width == bits width

-- A switch whose cases are these.
unfoldable pub one_of : List Opcode → Operation → Bool
unfolding is
one_of [] operation = false
one_of (opcode ∷ opcodes) operation = is opcode operation || one_of opcodes operation

-- has_value() and the value; the code takes the value of an optional only where it has one.
unfoldable pub has : Option ℕ → Bool
has none = false
has (some value) = true

unfoldable pub the : Option ℕ → ℕ
the none = 0
the (some value) = value

unfoldable pub is_same : Option ℕ → Option ℕ → Bool
is_same none none = true
is_same none (some b) = false
is_same (some a) none = false
is_same (some a) (some b) = a == b
