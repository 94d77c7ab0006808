-- ===== src/Arm64/Assembler/Finish/Extend.antt =====
-- What appending a word or a branch does to the branches that are to be resolved (emit and emitFixup of
-- src/arm64/Assembler.cpp).
use rosa.Prelude.{
  All-end, ℕ, zero, suc, ◌+◌, ◌*◌, ◌/◌, ◌%◌, ◌^◌, ◌<◌, bit_and, bit_or, ◌≡◌, refl, ap, ◌∙◌, true,
  some, List, [], ◌∷◌, ◌++◌, arith, ltb, length, get_elem?,
}
use rosa.Prelude.Bits.Laws.{bit_and_low}
use rosa.Prelude.Bits.Fields.{bit_or_field}
use rosa.Arm64.Assembler.{FixupKind, Fixup, test_branch14, is_register}
use rosa.Arm64.Assembler.Finish.Resolve.{field_of}
use rosa.Arm64.Assembler.Finish.Pending.{Pending, Elsewhere, some_index}

get_elem?-append :
    (xs ys : List ℕ) (i x : ℕ) → get_elem? xs i ≡ some x → get_elem? (xs ++ ys) i ≡ some x
get_elem?-append [] ys i x e = absurd (cc)
get_elem?-append (y ∷ xs) ys zero x e = e
get_elem?-append (y ∷ xs) ys (suc i) x e = get_elem?-append xs ys i x e

get_elem?-end : (xs : List ℕ) (x : ℕ) → get_elem? (xs ++ x ∷ []) (length xs) ≡ some x
get_elem?-end [] x = refl
get_elem?-end (y ∷ xs) x = get_elem?-end xs x

pub Pending-append :
    (words more : List ℕ) (fixups : List Fixup)
    → Pending words fixups
    → Pending (words ++ more) fixups
Pending-append words more [] p = tt
Pending-append words more (fixup ∷ fixups) p = (
  record { word = p.0.word; stands = get_elem?-append words more _ _ p.0.stands; free = p.0.free },
  p.1,
  Pending-append words more fixups p.2,
)

pub Pending-fixup :
    (words : List ℕ) (fixups : List Fixup) (word label : ℕ) (kind : FixupKind)
    → field_of kind word ≡ 0
    → Pending words fixups
    → Pending
        (words ++ word ∷ [])
        (fixups ++ record { kind = kind; word_index = length words; label = label } ∷ [])
Pending-fixup words [] word label kind free p =
    (record { word = word; stands = get_elem?-end words word; free = free }, tt, tt)
Pending-fixup words (fixup ∷ fixups) word label kind free p = (
  record { word = p.0.word; stands = get_elem?-append words _ _ _ p.0.stands; free = p.0.free },
  All-end (Elsewhere fixup.word_index) fixups _ p.1
      (λ e. absurd (omega (arith, e, some_index words fixup.word_index p.0.word p.0.stands))),
  Pending-fixup words fixups word label kind free p.2,
)

-- A register's encoding in the low bits, which are free.
pub low_register : (x r : ℕ) → x % 32 ≡ 0 → is_register r ≡ true → bit_or x r ≡ x + r
low_register x r free small =
    ap (bit_or x) one ∙ bit_or_field 0 5 x r (omega (arith, free)) (ground arith) ∙ omega arith
  where
    one : r ≡ r * 1
    one = omega arith

pub test_word :
    (base value bit : ℕ)
    → base % 2 ^ 24 ≡ 0
    → base < 2 ^ 31
    → is_register value ≡ true
    → ltb bit 64 ≡ true
    → field_of test_branch14
        (bit_or (bit_or (bit_or base (bit / 2 ^ 5 * 2 ^ 31)) (bit_and bit 0x1f * 2 ^ 19)) value)
      ≡ 0
test_word base value bit low small r below =
    rw
      (
        bit_and_low 5 bit,
        bit_or_field 31 1 base (bit / 2 ^ 5) (omega arith) (ground arith),
        bit_or_field 19 5 (base + bit / 2 ^ 5 * 2 ^ 31) (bit % 32) (omega arith) (omega arith),
        low_register (base + bit / 2 ^ 5 * 2 ^ 31 + bit % 32 * 2 ^ 19) value (omega arith) r,
      )
      (ground arith)
