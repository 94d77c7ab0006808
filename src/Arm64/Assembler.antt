-- ===== src/Arm64/Assembler.antt =====
-- The assembler (src/arm64/Assembler.h and Assembler.cpp): the words, the labels and the branches that are
-- still to be resolved. A register is its encoding, a label its id; a call that throws has no result.
-- The listing is text for a reader, and is left out.
pub mod Moves
pub mod Arithmetic
pub mod Shifts
pub mod Logic
pub mod Memory
pub mod Branches
pub mod Frames
pub mod Finish
pub mod Programs
use rosa.Prelude.{
  ℕ, zero, suc, ◌+◌, ◌-◌, ◌*◌, ◌/◌, ◌%◌, ◌^◌, ◌≤◌, ◌<◌, min, max, bit_and, bit_or, bit_xor, ◌≡◌,
  refl, sym, ap, ◌∙◌, subst, ◌≢◌, ◌↔◌, ◌⊎◌, inl, inr, Bool, true, false, not, ◌&&◌, ◌||◌, Option,
  none, some, List, [], ◌∷◌, ◌++◌, arith, ltb, leb, ◌==◌, if◌then◌else◌, Bool-cases, Option-cases,
  length, get_elem?, set, take, drop, replicate, All, u32, u64, u32_max, u64_max,
}

pub data FixupKind : Type 0 where
  branch26 compare_branch19 test_branch14 : FixupKind

pub record Fixup : Type 0 where
  pub kind : FixupKind
  pub word_index : ℕ
  pub label : ℕ

pub record Assembler : Type 0 where
  pub words : List ℕ
  pub label_positions : List (Option ℕ)
  pub fixups : List Fixup
  pub pointer_relocations : List ℕ

abbrev pub empty_assembler : Assembler
empty_assembler = record { words = []; label_positions = []; fixups = []; pointer_relocations = [] }

-- BranchCondition, by its encodings.
abbrev pub equal : ℕ
equal = 0

abbrev pub unsigned_higher_or_same : ℕ
unsigned_higher_or_same = 2

abbrev pub signed_less_or_equal : ℕ
signed_less_or_equal = 13

-- requireRegister
abbrev pub is_register : ℕ → Bool
is_register encoding = leb encoding 30

abbrev pub emit : Assembler → ℕ → Assembler
emit a word = record a { words = a.words ++ word ∷ [] }

abbrev pub emit_fixup : Assembler → (word : ℕ) → FixupKind → (label : ℕ) → Assembler
emit_fixup a word kind label = record a {
  words = a.words ++ word ∷ [];
  fixups = a.fixups ++ record { kind = kind; word_index = length a.words; label = label } ∷ [];
}

-- label.id < labelPositions_.size()
abbrev pub is_label : Assembler → ℕ → Bool
is_label a label = ltb label (length a.label_positions)

unfoldable pub make_label : Assembler → Option (ℕ × Assembler)
make_label a =
    if ltb u32_max (length a.label_positions)
    then none
    else some (
      u32 (length a.label_positions),
      record a { label_positions = a.label_positions ++ none ∷ [] },
    )

unfoldable pub bind : Assembler → (label : ℕ) → Option Assembler
bind a label = elim (get_elem? a.label_positions label) [
  | none ↦ none
  | some (some position) ↦ none
  | some none ↦
      some (record a { label_positions = set a.label_positions label (some (length a.words)) })
]
