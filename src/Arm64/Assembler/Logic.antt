-- ===== src/Arm64/Assembler/Logic.antt =====
-- Bitwise operations, comparisons and selections (src/arm64/Assembler.cpp).
use rosa.Prelude.{ℕ, ◌*◌, ◌^◌, bit_or, bit_xor, ◌&&◌, Option, none, some, ltb, leb, if◌then◌else◌}
use rosa.Arm64.Assembler.{equal, Assembler, emit, is_register, signed_less_or_equal}

unfoldable pub bitwise_and : Assembler → (destination lhs rhs : ℕ) → Option Assembler
bitwise_and a destination lhs rhs =
    if is_register destination && is_register lhs && is_register rhs
    then (some
        (emit a (bit_or (bit_or (bit_or 0x8a000000 (rhs * 2 ^ 16)) (lhs * 2 ^ 5)) destination)))
    else none

unfoldable pub bitwise_and32 : Assembler → (destination lhs rhs : ℕ) → Option Assembler
bitwise_and32 a destination lhs rhs =
    if is_register destination && is_register lhs && is_register rhs
    then (some
        (emit a (bit_or (bit_or (bit_or 0x0a000000 (rhs * 2 ^ 16)) (lhs * 2 ^ 5)) destination)))
    else none

unfoldable pub bitwise_or : Assembler → (destination lhs rhs : ℕ) → Option Assembler
bitwise_or a destination lhs rhs =
    if is_register destination && is_register lhs && is_register rhs
    then (some
        (emit a (bit_or (bit_or (bit_or 0xaa000000 (rhs * 2 ^ 16)) (lhs * 2 ^ 5)) destination)))
    else none

unfoldable pub bitwise_or32 : Assembler → (destination lhs rhs : ℕ) → Option Assembler
bitwise_or32 a destination lhs rhs =
    if is_register destination && is_register lhs && is_register rhs
    then (some
        (emit a (bit_or (bit_or (bit_or 0x2a000000 (rhs * 2 ^ 16)) (lhs * 2 ^ 5)) destination)))
    else none

unfoldable pub bitwise_or_shifted_left :
    Assembler → (destination lhs rhs shift : ℕ) → Option Assembler
bitwise_or_shifted_left a destination lhs rhs shift =
    if is_register destination && is_register lhs && is_register rhs && ltb shift 64
    then (some (
        emit a (
          bit_or (bit_or (bit_or (bit_or 0xaa000000 (rhs * 2 ^ 16)) (shift * 2 ^ 10)) (lhs * 2 ^ 5))
            destination)))
    else none

unfoldable pub bitwise_xor : Assembler → (destination lhs rhs : ℕ) → Option Assembler
bitwise_xor a destination lhs rhs =
    if is_register destination && is_register lhs && is_register rhs
    then (some
        (emit a (bit_or (bit_or (bit_or 0xca000000 (rhs * 2 ^ 16)) (lhs * 2 ^ 5)) destination)))
    else none

unfoldable pub bitwise_xor32 : Assembler → (destination lhs rhs : ℕ) → Option Assembler
bitwise_xor32 a destination lhs rhs =
    if is_register destination && is_register lhs && is_register rhs
    then (some
        (emit a (bit_or (bit_or (bit_or 0x4a000000 (rhs * 2 ^ 16)) (lhs * 2 ^ 5)) destination)))
    else none

unfoldable pub bitwise_xor_shifted_right :
    Assembler → (destination lhs rhs shift : ℕ) → Option Assembler
bitwise_xor_shifted_right a destination lhs rhs shift =
    if is_register destination && is_register lhs && is_register rhs && ltb shift 64
    then (some (
        emit a (
          bit_or (bit_or (bit_or (bit_or 0xca400000 (rhs * 2 ^ 16)) (shift * 2 ^ 10)) (lhs * 2 ^ 5))
            destination)))
    else none

unfoldable pub compare : Assembler → (lhs rhs : ℕ) → Option Assembler
compare a lhs rhs =
    if is_register lhs && is_register rhs
    then (some (emit a (bit_or (bit_or 0xeb00001f (rhs * 2 ^ 16)) (lhs * 2 ^ 5))))
    else none

unfoldable pub compare_zero : Assembler → (value : ℕ) → Option Assembler
compare_zero a value =
    if is_register value then (some (emit a (bit_or 0xf100001f (value * 2 ^ 5)))) else none

unfoldable pub conditional_set : Assembler → (destination condition : ℕ) → Option Assembler
conditional_set a destination condition =
    if is_register destination && leb condition signed_less_or_equal
    then (some (emit a (bit_or (bit_or 0x9a9f07e0 (bit_xor condition 1 * 2 ^ 12)) destination)))
    else none

unfoldable pub conditional_select :
    Assembler → (destination if_true if_false condition : ℕ) → Option Assembler
conditional_select a destination if_true if_false condition =
    if is_register destination
      && is_register if_true
      && is_register if_false
      && leb condition signed_less_or_equal
    then (some (
        emit a (
          bit_or
            (bit_or (bit_or (bit_or 0x9a800000 (if_false * 2 ^ 16)) (condition * 2 ^ 12))
              (if_true * 2 ^ 5))
            destination)))
    else none

unfoldable pub conditional_select32 :
    Assembler → (destination if_true if_false condition : ℕ) → Option Assembler
conditional_select32 a destination if_true if_false condition =
    if is_register destination
      && is_register if_true
      && is_register if_false
      && leb condition signed_less_or_equal
    then (some (
        emit a (
          bit_or
            (bit_or (bit_or (bit_or 0x1a800000 (if_false * 2 ^ 16)) (condition * 2 ^ 12))
              (if_true * 2 ^ 5))
            destination)))
    else none

unfoldable pub conditional_select_equal :
    Assembler → (destination if_equal if_not_equal : ℕ) → Option Assembler
unfolding conditional_select
conditional_select_equal a destination if_equal if_not_equal =
    conditional_select a destination if_equal if_not_equal equal
