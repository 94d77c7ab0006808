-- ===== src/Arm64/Assembler/Moves/Wide.antt =====
-- The processor's wide moves, and the words that src/arm64/Assembler.cpp makes for them.
use rosa.Prelude.{
  ℕ, ◌+◌, ◌-◌, ◌*◌, ◌/◌, ◌%◌, ◌^◌, ◌<◌, bit_or, ◌≡◌, refl, ap, ◌∙◌, inl, inr, true, Option, none,
  some, List, [], ◌∷◌, ◌++◌, arith, ◌==◌, if◌then◌else◌, Option-cases, u64_max,
}
use mathlib.Core.Option.{some-injective}
use rosa.Arm64.Assembler.Moves.Halfwords.{place}
use rosa.Prelude.Bits.Fields.{bit_or_field}

-- The processor's reading of a wide move: what it puts into a register that held `value`, if it is
-- MOVN, MOVZ or MOVK of the register.
unfoldable pub wide_move : (destination word value : ℕ) → Option ℕ
wide_move destination word value =
    let place = 2 ^ (16 * (word / 2 ^ 21 % 4)) in
    let immediate = word / 2 ^ 5 % 2 ^ 16 in
    if word % 2 ^ 5 == destination
    then (if word / 2 ^ 23 == 0x125
        then some (u64_max - immediate * place)
        else (if word / 2 ^ 23 == 0x1a5
            then some (immediate * place)
            else (if word / 2 ^ 23 == 0x1e5
                then some (value - value / place % 2 ^ 16 * place + immediate * place)
                else none)))
    else none

-- The instructions in order.
unfoldable pub run : (destination : ℕ) → (words : List ℕ) → (value : ℕ) → Option ℕ
unfolding wide_move
run destination [] value = some value
run destination (word ∷ words) value = elim (wide_move destination word value) [
  | none ↦ none
  | some next ↦ run destination words next
]

encoded :
    (base index immediate destination : ℕ)
    → index < 4
    → immediate < 2 ^ 16
    → destination < 32
    → base % 2 ^ 23 ≡ 0
    → bit_or (bit_or (bit_or base (index * 2 ^ 21)) (immediate * 2 ^ 5)) destination
      ≡ base + index * 2 ^ 21 + immediate * 2 ^ 5 + destination
encoded base index immediate destination i m d low =
    rw
      (
        bit_or_field 21 2 base index (omega arith) (omega arith),
        bit_or_field 5 16 (base + index * 2 ^ 21) immediate (omega arith) (omega arith),
      )
      (ap (bit_or (base + index * 2 ^ 21 + immediate * 2 ^ 5)) one
        ∙ bit_or_field 0 5 (base + index * 2 ^ 21 + immediate * 2 ^ 5) destination (omega arith)
            (omega arith)
        ∙ omega arith)
  where
    one : destination ≡ destination * 1
    one = omega arith

-- What the encoded wide moves do.
module _ (index immediate destination value : ℕ) (i : index < 4) (m : immediate < 2 ^ 16)
    (d : destination < 32) where
  abbrev pub word_of : ℕ → ℕ
  word_of base = bit_or (bit_or (bit_or base (index * 2 ^ 21)) (immediate * 2 ^ 5)) destination

  fields :
      (base : ℕ)
      → base % 2 ^ 23 ≡ 0
      → ((word_of base / 2 ^ 23 ≡ base / 2 ^ 23)
          × (word_of base / 2 ^ 21 % 4 ≡ index)
          × (word_of base / 2 ^ 5 % 2 ^ 16 ≡ immediate)
          × (word_of base % 2 ^ 5 ≡ destination))
  fields base low =
      rw (encoded base index immediate destination i m d low)
        (omega arith, omega arith, omega arith, omega arith)

  same : (destination == destination) ≡ true
  same = ground arith

  pub moves_not :
      wide_move destination (word_of 0x92800000) value ≡ some (u64_max - immediate * place index)
  unfolding wide_move
  moves_not = let (b, x, f, r) = fields 0x92800000 refl in rw (b, x, f, r, same, wide_move) refl

  pub moves_zero : wide_move destination (word_of 0xd2800000) value ≡ some (immediate * place index)
  unfolding wide_move
  moves_zero = let (b, x, f, r) = fields 0xd2800000 refl in rw (b, x, f, r, same, wide_move) refl

  pub moves_keep :
      wide_move destination (word_of 0xf2800000) value
      ≡ some (value - value / place index % 2 ^ 16 * place index + immediate * place index)
  unfolding wide_move
  moves_keep = let (b, x, f, r) = fields 0xf2800000 refl in rw (b, x, f, r, same, wide_move) refl

pub run-end :
    (destination : ℕ) (words : List ℕ) (word old next last : ℕ)
    → run destination words old ≡ some next
    → wide_move destination word next ≡ some last
    → run destination (words ++ word ∷ []) old ≡ some last
unfolding run
run-end destination [] word old next last r w =
    let same : old ≡ next = some-injective _ _ r in rw (same, w, run) refl
run-end destination (first ∷ words) word old next last r w =
    elim (Option-cases (wide_move destination first old)) [
      | inl bad ↦ absurd (ground arith)
      | inr (then_value, e) ↦
          rw (e, run) (run-end destination words word then_value next last (rw (e, run) at r) w)
    ]
