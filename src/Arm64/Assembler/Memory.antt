-- ===== src/Arm64/Assembler/Memory.antt =====
-- Loads, stores and calls (src/arm64/Assembler.cpp).
use rosa.Prelude.{ℕ, ◌*◌, ◌/◌, ◌%◌, ◌^◌, bit_or, ◌&&◌, Option, none, some, leb, ◌==◌, if◌then◌else◌}
use rosa.Arm64.Assembler.{Assembler, emit, is_register}

unfoldable pub ldr : Assembler → (destination base byte_offset : ℕ) → Option Assembler
ldr a destination base byte_offset =
    if is_register destination && is_register base && byte_offset % 8 == 0 && leb byte_offset 32760
    then (some (
        emit a (
          bit_or (bit_or (bit_or 0xf9400000 (byte_offset / 8 * 2 ^ 10)) (base * 2 ^ 5))
            destination)))
    else none

unfoldable pub ldr32 : Assembler → (destination base byte_offset : ℕ) → Option Assembler
ldr32 a destination base byte_offset =
    if is_register destination && is_register base && byte_offset % 4 == 0 && leb byte_offset 16380
    then (some (
        emit a (
          bit_or (bit_or (bit_or 0xb9400000 (byte_offset / 4 * 2 ^ 10)) (base * 2 ^ 5))
            destination)))
    else none

unfoldable pub ldr8 : Assembler → (destination base byte_offset : ℕ) → Option Assembler
ldr8 a destination base byte_offset =
    if is_register destination && is_register base && leb byte_offset 4095
    then (some (
        emit a
          (bit_or (bit_or (bit_or 0x39400000 (byte_offset * 2 ^ 10)) (base * 2 ^ 5)) destination)))
    else none

unfoldable pub str : Assembler → (source base byte_offset : ℕ) → Option Assembler
str a source base byte_offset =
    if is_register source && is_register base && byte_offset % 8 == 0 && leb byte_offset 32760
    then (some (
        emit a
          (bit_or (bit_or (bit_or 0xf9000000 (byte_offset / 8 * 2 ^ 10)) (base * 2 ^ 5)) source)))
    else none

unfoldable pub str8 : Assembler → (source base byte_offset : ℕ) → Option Assembler
str8 a source base byte_offset =
    if is_register source && is_register base && leb byte_offset 4095
    then (some
        (emit a (bit_or (bit_or (bit_or 0x39000000 (byte_offset * 2 ^ 10)) (base * 2 ^ 5)) source)))
    else none

unfoldable pub blr : Assembler → (target : ℕ) → Option Assembler
blr a target =
    if is_register target then (some (emit a (bit_or 0xd63f0000 (target * 2 ^ 5)))) else none
