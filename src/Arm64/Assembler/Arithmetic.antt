-- ===== src/Arm64/Assembler/Arithmetic.antt =====
-- Additions, subtractions and multiplications (src/arm64/Assembler.cpp).
use rosa.Prelude.{ℕ, ◌*◌, ◌^◌, bit_or, ◌&&◌, Option, none, some, leb, if◌then◌else◌}
use rosa.Arm64.Assembler.{Assembler, emit, is_register}

unfoldable pub add : Assembler → (destination lhs rhs : ℕ) → Option Assembler
add a destination lhs rhs =
    if is_register destination && is_register lhs && is_register rhs
    then (some
        (emit a (bit_or (bit_or (bit_or 0x8b000000 (rhs * 2 ^ 16)) (lhs * 2 ^ 5)) destination)))
    else none

unfoldable pub add32 : Assembler → (destination lhs rhs : ℕ) → Option Assembler
add32 a destination lhs rhs =
    if is_register destination && is_register lhs && is_register rhs
    then (some
        (emit a (bit_or (bit_or (bit_or 0x0b000000 (rhs * 2 ^ 16)) (lhs * 2 ^ 5)) destination)))
    else none

unfoldable pub add_immediate : Assembler → (destination source immediate : ℕ) → Option Assembler
add_immediate a destination source immediate =
    if is_register destination && is_register source && leb immediate 0xfff
    then (some (
        emit a
          (bit_or (bit_or (bit_or 0x91000000 (immediate * 2 ^ 10)) (source * 2 ^ 5)) destination)))
    else none

unfoldable pub add_immediate32 : Assembler → (destination source immediate : ℕ) → Option Assembler
add_immediate32 a destination source immediate =
    if is_register destination && is_register source && leb immediate 0xfff
    then (some (
        emit a
          (bit_or (bit_or (bit_or 0x11000000 (immediate * 2 ^ 10)) (source * 2 ^ 5)) destination)))
    else none

unfoldable pub sub : Assembler → (destination lhs rhs : ℕ) → Option Assembler
sub a destination lhs rhs =
    if is_register destination && is_register lhs && is_register rhs
    then (some
        (emit a (bit_or (bit_or (bit_or 0xcb000000 (rhs * 2 ^ 16)) (lhs * 2 ^ 5)) destination)))
    else none

unfoldable pub sub32 : Assembler → (destination lhs rhs : ℕ) → Option Assembler
sub32 a destination lhs rhs =
    if is_register destination && is_register lhs && is_register rhs
    then (some
        (emit a (bit_or (bit_or (bit_or 0x4b000000 (rhs * 2 ^ 16)) (lhs * 2 ^ 5)) destination)))
    else none

unfoldable pub sub_immediate : Assembler → (destination source immediate : ℕ) → Option Assembler
sub_immediate a destination source immediate =
    if is_register destination && is_register source && leb immediate 0xfff
    then (some (
        emit a
          (bit_or (bit_or (bit_or 0xd1000000 (immediate * 2 ^ 10)) (source * 2 ^ 5)) destination)))
    else none

unfoldable pub sub_immediate32 : Assembler → (destination source immediate : ℕ) → Option Assembler
sub_immediate32 a destination source immediate =
    if is_register destination && is_register source && leb immediate 0xfff
    then (some (
        emit a
          (bit_or (bit_or (bit_or 0x51000000 (immediate * 2 ^ 10)) (source * 2 ^ 5)) destination)))
    else none

unfoldable pub multiply_low : Assembler → (destination lhs rhs : ℕ) → Option Assembler
multiply_low a destination lhs rhs =
    if is_register destination && is_register lhs && is_register rhs
    then (some
        (emit a (bit_or (bit_or (bit_or 0x9b007c00 (rhs * 2 ^ 16)) (lhs * 2 ^ 5)) destination)))
    else none

unfoldable pub multiply_high_unsigned : Assembler → (destination lhs rhs : ℕ) → Option Assembler
multiply_high_unsigned a destination lhs rhs =
    if is_register destination && is_register lhs && is_register rhs
    then (some
        (emit a (bit_or (bit_or (bit_or 0x9bc07c00 (rhs * 2 ^ 16)) (lhs * 2 ^ 5)) destination)))
    else none

unfoldable pub multiply_high_signed : Assembler → (destination lhs rhs : ℕ) → Option Assembler
multiply_high_signed a destination lhs rhs =
    if is_register destination && is_register lhs && is_register rhs
    then (some
        (emit a (bit_or (bit_or (bit_or 0x9b407c00 (rhs * 2 ^ 16)) (lhs * 2 ^ 5)) destination)))
    else none
