-- ===== src/Arm64/Assembler/Branches.antt =====
-- Branches to labels, which `finish` resolves (src/arm64/Assembler.cpp).
use rosa.Prelude.{ℕ, ◌*◌, ◌/◌, ◌^◌, bit_and, bit_or, ◌&&◌, Option, none, some, ltb, if◌then◌else◌}
use rosa.Arm64.Assembler.{
  unsigned_higher_or_same, Assembler, emit_fixup, is_register, is_label, branch26, compare_branch19,
  test_branch14,
}

unfoldable pub b : Assembler → (label : ℕ) → Option Assembler
b a label = if is_label a label then (some (emit_fixup a (0x14000000) branch26 label)) else none

unfoldable pub cbz : Assembler → (value label : ℕ) → Option Assembler
cbz a value label =
    if is_register value && is_label a label
    then (some (emit_fixup a (bit_or 0xb4000000 value) compare_branch19 label))
    else none

unfoldable pub cbnz : Assembler → (value label : ℕ) → Option Assembler
cbnz a value label =
    if is_register value && is_label a label
    then (some (emit_fixup a (bit_or 0xb5000000 value) compare_branch19 label))
    else none

unfoldable pub b_conditional : Assembler → (condition label : ℕ) → Option Assembler
b_conditional a condition label =
    if is_label a label && ltb condition 14
    then (some (emit_fixup a (bit_or 0x54000000 condition) compare_branch19 label))
    else none

unfoldable pub tbz : Assembler → (value bit label : ℕ) → Option Assembler
tbz a value bit label =
    if is_register value && ltb bit 64 && is_label a label
    then (some (
        emit_fixup a
          (bit_or (bit_or (bit_or 0x36000000 (bit / 2 ^ 5 * 2 ^ 31)) (bit_and bit 0x1f * 2 ^ 19))
            value)
          test_branch14 label))
    else none

unfoldable pub tbnz : Assembler → (value bit label : ℕ) → Option Assembler
tbnz a value bit label =
    if is_register value && ltb bit 64 && is_label a label
    then (some (
        emit_fixup a
          (bit_or (bit_or (bit_or 0x37000000 (bit / 2 ^ 5 * 2 ^ 31)) (bit_and bit 0x1f * 2 ^ 19))
            value)
          test_branch14 label))
    else none

unfoldable pub b_unsigned_higher_or_same : Assembler → (label : ℕ) → Option Assembler
unfolding b_conditional
b_unsigned_higher_or_same a label = b_conditional a unsigned_higher_or_same label
