-- ===== src/Arm64/Assembler/Moves.antt =====
-- Register moves and constants (src/arm64/Assembler.cpp).
pub mod Halfwords
pub mod Wide
pub mod Rounds
pub mod Correct
use rosa.Prelude.{
  ℕ, zero, suc, ◌+◌, ◌-◌, ◌*◌, ◌/◌, ◌%◌, ◌^◌, ◌≤◌, ◌<◌, min, max, bit_and, bit_or, bit_xor, ◌≡◌,
  refl, sym, ap, ◌∙◌, subst, ◌≢◌, ◌↔◌, ◌⊎◌, inl, inr, Bool, true, false, not, ◌&&◌, ◌||◌, Option,
  none, some, List, [], ◌∷◌, ◌++◌, arith, ltb, leb, ◌==◌, if◌then◌else◌, Bool-cases, Option-cases,
  length, get_elem?, set, take, drop, replicate, All, u32, u64, u32_max, u64_max,
}
use rosa.Arm64.Assembler.{
  Assembler, emit, emit_fixup, is_register, is_label, signed_less_or_equal, branch26,
  compare_branch19, test_branch14,
}

unfoldable pub mov : Assembler → (destination source : ℕ) → Option Assembler
mov a destination source =
    if is_register destination && is_register source
    then (some (emit a (bit_or (bit_or 0xaa0003e0 (source * 2 ^ 16)) destination)))
    else none

unfoldable pub mov32 : Assembler → (destination source : ℕ) → Option Assembler
mov32 a destination source =
    if is_register destination && is_register source
    then (some (emit a (bit_or (bit_or 0x2a0003e0 (source * 2 ^ 16)) destination)))
    else none

-- Halfword `index` of a value.
abbrev pub halfword_of : (value index : ℕ) → ℕ
halfword_of value index = bit_and (value / 2 ^ (index * 16)) 0xffff

abbrev pub count_if : Bool → ℕ
count_if true = 1
count_if false = 0

-- More halfwords are zero than ones, or fewer.
unfoldable pub uses_movn : ℕ → Bool
uses_movn value =
    let differing : ℕ → ℕ = λ fill.
      count_if (not (halfword_of value 0 == fill))
      + count_if (not (halfword_of value 1 == fill))
      + count_if (not (halfword_of value 2 == fill))
      + count_if (not (halfword_of value 3 == fill)) in
    ltb (differing 0xffff) (differing 0)

-- One round of the loop: the halfword is skipped if it is what the first instruction fills in, and if
-- that instruction is there or will be. The complement of a halfword is a halfword.
unfoldable pub move_halfword :
    (destination value : ℕ) → (use_movn : Bool) → (index : ℕ) → Assembler × Bool → Assembler × Bool
move_halfword destination value use_movn index (a, emitted_first) =
    let desired = halfword_of value index in
    let fill = if use_movn then 0xffff else 0 in
    let immediate = if use_movn && not emitted_first then 0xffff - desired else desired in
    let base =
      if emitted_first then 0xf2800000 else (if use_movn then 0x92800000 else 0xd2800000) in
    if desired == fill
      && (emitted_first || (if use_movn then not (value == u64_max) else not (value == 0)))
    then (a, emitted_first)
    else (
      emit a (bit_or (bit_or (bit_or base (index * 2 ^ 21)) (immediate * 2 ^ 5)) destination),
      true,
    )

unfoldable pub mov_immediate : Assembler → (destination value : ℕ) → Option Assembler
unfolding uses_movn move_halfword
mov_immediate a destination value =
    if is_register destination
    then (let round = move_halfword destination value (uses_movn value) in
        some (round 3 (round 2 (round 1 (round 0 (a, false))))).0)
    else none

-- One round of the loop of the constant that may be relocated: all four halfwords are written.
abbrev pub pointer_word : (destination value index : ℕ) → ℕ
pointer_word destination value index =
    let base = if index == 0 then 0xd2800000 else 0xf2800000 in
    bit_or (bit_or (bit_or base (index * 2 ^ 21)) (halfword_of value index * 2 ^ 5)) destination

unfoldable pub mov_pointer : Assembler → (destination value : ℕ) → Option Assembler
mov_pointer a destination value =
    if is_register destination && leb (length a.words) (u32_max / 4)
    then (let word = pointer_word destination value in
        let written = emit (emit (emit (emit a (word 0)) (word 1)) (word 2)) (word 3) in
        some (record written {
          pointer_relocations = a.pointer_relocations ++ u32 (length a.words * 4) ∷ [];
        }))
    else none
