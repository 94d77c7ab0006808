-- ===== src/Arm64/Assembler/Finish.antt =====
-- The resolution of branches and the bytes of a program (Assembler::finish of src/arm64/Assembler.cpp).
-- The differences of two positions are taken modulo 2 ^ 32, as the code's conversion to 32 bits does;
-- the range tests compare the positions themselves.
pub mod Resolve
pub mod Pending
pub mod Extend
use rosa.Prelude.{
  ℕ, zero, suc, ◌+◌, ◌-◌, ◌*◌, ◌/◌, ◌%◌, ◌^◌, ◌≤◌, ◌<◌, min, max, bit_and, bit_or, bit_xor, ◌≡◌,
  refl, sym, ap, ◌∙◌, subst, ◌≢◌, ◌↔◌, ◌⊎◌, inl, inr, Bool, true, false, not, ◌&&◌, ◌||◌, Option,
  none, some, List, [], ◌∷◌, ◌++◌, arith, ltb, leb, ◌==◌, if◌then◌else◌, Bool-cases, Option-cases,
  length, get_elem?, set, take, drop, replicate, All, u32, u64, u32_max, u64_max,
}
use rosa.Arm64.Assembler.{FixupKind, Fixup, Assembler, branch26, compare_branch19, test_branch14}

-- The highest bit of the displacement: it is from -2 ^ n to 2 ^ n - 1.
unfoldable pub sign_bit : FixupKind → ℕ
sign_bit branch26 = 25
sign_bit compare_branch19 = 18
sign_bit test_branch14 = 13

-- Where the displacement stands in the word.
unfoldable pub shift_of : FixupKind → ℕ
shift_of branch26 = 0
shift_of compare_branch19 = 5
shift_of test_branch14 = 5

abbrev pub in_range : (n source target : ℕ) → Bool
in_range n source target = ltb target (source + 2 ^ n) && leb source (target + 2 ^ n)

-- The displacement, converted to 32 bits.
abbrev pub displacement32 : (source target : ℕ) → ℕ
displacement32 source target = (target + 2 ^ 32 - source % 2 ^ 32) % 2 ^ 32

unfoldable pub field : FixupKind → (source target : ℕ) → ℕ
unfolding shift_of
field branch26 source target = bit_and (displacement32 source target) 0x3ffffff
field compare_branch19 source target = bit_and (displacement32 source target) 0x7ffff * 2 ^ 5
field test_branch14 source target = bit_and (displacement32 source target) 0x3fff * 2 ^ 5

-- One round of the loop over the fixups; a word or a label that is not there is none.
unfoldable pub resolve : List (Option ℕ) → List ℕ → Fixup → Option (List ℕ)
unfolding sign_bit field
resolve positions words fixup = elim (get_elem? positions fixup.label) [
  | none ↦ none
  | some none ↦ none
  | some (some target) ↦ elim (get_elem? words fixup.word_index) [
    | none ↦ none
    | some word ↦
        if in_range (sign_bit fixup.kind) fixup.word_index target
        then (some
            (set words fixup.word_index (bit_or word (field fixup.kind fixup.word_index target))))
        else none
  ]
]

unfoldable pub resolve_all : List (Option ℕ) → List ℕ → List Fixup → Option (List ℕ)
unfolding resolve
resolve_all positions words [] = some words
resolve_all positions words (fixup ∷ fixups) = elim (resolve positions words fixup) [
  | none ↦ none
  | some resolved ↦ resolve_all positions resolved fixups
]

pub record Program : Type 0 where
  pub bytes : List ℕ
  pub pointer_relocations : List ℕ

unfoldable pub bytes_of : List ℕ → List ℕ
bytes_of [] = []
bytes_of (word ∷ words) =
    bit_and word 0xff
    ∷ bit_and (word / 2 ^ 8) 0xff
    ∷ bit_and (word / 2 ^ 16) 0xff
    ∷ bit_and (word / 2 ^ 24) 0xff
    ∷ bytes_of words

unfoldable pub finish : Assembler → Option Program
unfolding resolve_all bytes_of
finish a =
    if leb (length a.words) (2 ^ 62 - 1)
    then (elim (resolve_all a.label_positions a.words a.fixups) [
      | none ↦ none
      | some words ↦
          some (record { bytes = bytes_of words; pointer_relocations = a.pointer_relocations })
    ])
    else none
