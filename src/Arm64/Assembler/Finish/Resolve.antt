-- ===== src/Arm64/Assembler/Finish/Resolve.antt =====
-- What a resolved branch means: the place that the processor jumps to, and the fixups that can be resolved.
use rosa.Prelude.{
  refl, ℕ, ◌+◌, ◌-◌, ◌*◌, ◌/◌, ◌%◌, ◌^◌, bit_or, ◌≡◌, ap, ◌∙◌, true, arith, ltb, if◌then◌else◌,
}
use rosa.Prelude.Bits.Laws.{bit_and_low}
use rosa.Prelude.Bits.Fields.{bit_or_field}
use rosa.Arm64.Assembler.{FixupKind, branch26, compare_branch19, test_branch14}
use rosa.Arm64.Assembler.Finish.{sign_bit, shift_of, in_range, displacement32, field}

-- The displacement's field of a word.
abbrev pub field_of : FixupKind → (word : ℕ) → ℕ
field_of branch26 word = word % 2 ^ 26
field_of compare_branch19 word = word / 2 ^ 5 % 2 ^ 19
field_of test_branch14 word = word / 2 ^ 5 % 2 ^ 14

-- The rest of the word, above and below the field: the opcode, and the register, the condition or the bit
-- that is tested.
abbrev pub rest_of : FixupKind → (word : ℕ) → ℕ × ℕ
rest_of branch26 word = (word / 2 ^ 26, 0)
rest_of compare_branch19 word = (word / 2 ^ 24, word % 2 ^ 5)
rest_of test_branch14 word = (word / 2 ^ 19, word % 2 ^ 5)

-- The processor's reading of a field of n + 1 bits as a signed displacement from the branch itself.
abbrev signed_target : (n source value : ℕ) → ℕ
signed_target n source value =
    if ltb value (2 ^ n) then source + value else source + value - 2 * 2 ^ n

-- Where a branch that stands at `source` jumps to, counted in words.
unfoldable pub jump_target : FixupKind → (source word : ℕ) → ℕ
jump_target branch26 source word = signed_target 25 source (field_of branch26 word)
jump_target compare_branch19 source word = signed_target 18 source (field_of compare_branch19 word)
jump_target test_branch14 source word = signed_target 13 source (field_of test_branch14 word)

pub joined :
    (kind : FixupKind) (word source target : ℕ)
    → field_of kind word ≡ 0
    → bit_or word (field kind source target) ≡ word + field kind source target
unfolding field shift_of
joined branch26 word source target free = rw (bit_and_low 26 (displacement32 source target)) (
    ap (bit_or word) one
    ∙ bit_or_field 0 26 word value (omega (arith, free)) (omega arith)
    ∙ omega arith)
  where
    value : ℕ
    value = displacement32 source target % 2 ^ 26

    one : value ≡ value * 1
    one = omega arith
joined compare_branch19 word source target free =
    rw (bit_and_low 19 (displacement32 source target))
      (bit_or_field 5 19 word (displacement32 source target % 2 ^ 19) free (omega arith))
joined test_branch14 word source target free =
    rw (bit_and_low 14 (displacement32 source target))
      (bit_or_field 5 14 word (displacement32 source target % 2 ^ 14) free (omega arith))

pub resolved_word :
    (kind : FixupKind) (word source target : ℕ)
    → field_of kind word ≡ 0
    → in_range (sign_bit kind) source target ≡ true
    → jump_target kind source (bit_or word (field kind source target)) ≡ target
unfolding jump_target field sign_bit shift_of
resolved_word branch26 word source target free near =
    rw (joined branch26 word source target free, bit_and_low 26 (displacement32 source target))
      (ground arith)
resolved_word compare_branch19 word source target free near =
    rw
      (
        joined compare_branch19 word source target free,
        bit_and_low 19 (displacement32 source target),
      )
      (ground arith)
resolved_word test_branch14 word source target free near =
    rw (joined test_branch14 word source target free, bit_and_low 14 (displacement32 source target))
      (ground arith)

pairs : {a b c d : ℕ} → a ≡ c → b ≡ d → ◌≡◌ {A = ℕ × ℕ} (a, b) (c, d)
pairs p q = cc

-- The resolution keeps the rest of the word.
pub resolved_rest :
    (kind : FixupKind) (word source target : ℕ)
    → field_of kind word ≡ 0
    → rest_of kind (bit_or word (field kind source target)) ≡ rest_of kind word
unfolding field
resolved_rest branch26 word source target free =
    rw (joined branch26 word source target free, bit_and_low 26 (displacement32 source target))
      (pairs (omega (arith, free)) refl)
resolved_rest compare_branch19 word source target free =
    rw
      (
        joined compare_branch19 word source target free,
        bit_and_low 19 (displacement32 source target),
      )
      (pairs (omega (arith, free)) (omega (arith, free)))
resolved_rest test_branch14 word source target free =
    rw (joined test_branch14 word source target free, bit_and_low 14 (displacement32 source target))
      (pairs (omega (arith, free)) (omega (arith, free)))
