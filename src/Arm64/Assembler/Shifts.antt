-- ===== src/Arm64/Assembler/Shifts.antt =====
-- Shifts, byte reversals and extracts (src/arm64/Assembler.cpp).
use rosa.Prelude.{ℕ, ◌-◌, ◌*◌, ◌^◌, bit_or, ◌&&◌, Option, none, some, ltb, ◌==◌, if◌then◌else◌}
use rosa.Arm64.Assembler.{Assembler, emit, is_register}
use rosa.Arm64.Assembler.Moves.{mov, mov32}

unfoldable pub lsl_immediate : Assembler → (destination source shift : ℕ) → Option Assembler
unfolding mov
lsl_immediate a destination source shift =
    if is_register destination && is_register source && ltb shift 64
    then (if shift == 0
        then mov a destination source
        else some (
            emit a (
              bit_or
                (bit_or (bit_or (bit_or 0xd3400000 ((64 - shift) * 2 ^ 16)) ((63 - shift) * 2 ^ 10))
                  (source * 2 ^ 5))
                destination)))
    else none

unfoldable pub lsr_immediate : Assembler → (destination source shift : ℕ) → Option Assembler
unfolding mov
lsr_immediate a destination source shift =
    if is_register destination && is_register source && ltb shift 64
    then (if shift == 0
        then mov a destination source
        else some (
            emit a
              (bit_or (bit_or (bit_or 0xd340fc00 (shift * 2 ^ 16)) (source * 2 ^ 5)) destination)))
    else none

unfoldable pub asr_immediate : Assembler → (destination source shift : ℕ) → Option Assembler
unfolding mov
asr_immediate a destination source shift =
    if is_register destination && is_register source && ltb shift 64
    then (if shift == 0
        then mov a destination source
        else some (
            emit a
              (bit_or (bit_or (bit_or 0x9340fc00 (shift * 2 ^ 16)) (source * 2 ^ 5)) destination)))
    else none

unfoldable pub asr_immediate32 : Assembler → (destination source shift : ℕ) → Option Assembler
unfolding mov32
asr_immediate32 a destination source shift =
    if is_register destination && is_register source && ltb shift 32
    then (if shift == 0
        then mov32 a destination source
        else some (
            emit a
              (bit_or (bit_or (bit_or 0x13007c00 (shift * 2 ^ 16)) (source * 2 ^ 5)) destination)))
    else none

unfoldable pub reverse_bytes32 : Assembler → (destination source : ℕ) → Option Assembler
reverse_bytes32 a destination source =
    if is_register destination && is_register source
    then (some (emit a (bit_or (bit_or 0x5ac00800 (source * 2 ^ 5)) destination)))
    else none

unfoldable pub reverse_bytes64 : Assembler → (destination source : ℕ) → Option Assembler
reverse_bytes64 a destination source =
    if is_register destination && is_register source
    then (some (emit a (bit_or (bit_or 0xdac00c00 (source * 2 ^ 5)) destination)))
    else none

unfoldable pub sign_extend32 : Assembler → (destination source : ℕ) → Option Assembler
sign_extend32 a destination source =
    if is_register destination && is_register source
    then (some (emit a (bit_or (bit_or 0x93407c00 (source * 2 ^ 5)) destination)))
    else none

unfoldable pub lsl_variable : Assembler → (destination source shift : ℕ) → Option Assembler
lsl_variable a destination source shift =
    if is_register destination && is_register source && is_register shift
    then (some (
        emit a (bit_or (bit_or (bit_or 0x9ac02000 (shift * 2 ^ 16)) (source * 2 ^ 5)) destination)))
    else none

unfoldable pub lsr_variable : Assembler → (destination source shift : ℕ) → Option Assembler
lsr_variable a destination source shift =
    if is_register destination && is_register source && is_register shift
    then (some (
        emit a (bit_or (bit_or (bit_or 0x9ac02400 (shift * 2 ^ 16)) (source * 2 ^ 5)) destination)))
    else none

unfoldable pub asr_variable : Assembler → (destination source shift : ℕ) → Option Assembler
asr_variable a destination source shift =
    if is_register destination && is_register source && is_register shift
    then (some (
        emit a (bit_or (bit_or (bit_or 0x9ac02800 (shift * 2 ^ 16)) (source * 2 ^ 5)) destination)))
    else none

unfoldable pub asr_variable32 : Assembler → (destination source shift : ℕ) → Option Assembler
asr_variable32 a destination source shift =
    if is_register destination && is_register source && is_register shift
    then (some (
        emit a (bit_or (bit_or (bit_or 0x1ac02800 (shift * 2 ^ 16)) (source * 2 ^ 5)) destination)))
    else none

unfoldable pub extract : Assembler → (destination high low lsb : ℕ) → Option Assembler
extract a destination high low lsb =
    if is_register destination && is_register high && is_register low && ltb lsb 64
    then (some (
        emit a (
          bit_or (bit_or (bit_or (bit_or 0x93c00000 (low * 2 ^ 16)) (lsb * 2 ^ 10)) (high * 2 ^ 5))
            destination)))
    else none
