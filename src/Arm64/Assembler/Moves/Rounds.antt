-- ===== src/Arm64/Assembler/Moves/Rounds.antt =====
-- The rounds of movImmediate's loop (src/arm64/Assembler.cpp).
use rosa.Prelude.{
  both, ==_iff, ℕ, suc, ◌+◌, ◌-◌, ◌*◌, ◌/◌, ◌%◌, ◌^◌, ◌≤◌, ◌<◌, bit_or, ◌≡◌, refl, sym, ap, ◌∙◌,
  ◌≢◌, ◌⊎◌, inl, inr, Bool, true, false, not, ◌&&◌, some, List, [], ◌∷◌, ◌++◌, arith, ◌==◌,
  if◌then◌else◌, Bool-cases, length, u64_max, length-append,
}
use mathlib.Core.List.{append_assoc}
use rosa.Arm64.Assembler.{Assembler, emit}
use rosa.Arm64.Assembler.Moves.Halfwords.{
  place, above, blank, halfword, kept, replaced, still_blank, first_ones, first_zeros,
}
use rosa.Arm64.Assembler.Moves.{halfword_of, move_halfword}
use rosa.Arm64.Assembler.Moves.Wide.{run, run-end, moves_not, moves_zero, moves_keep}

-- After some rounds: either nothing is written yet and all halfwords so far are what the first
-- instruction fills in, or the code so far gives the halfwords so far.
abbrev pub Progress :
    (destination value : ℕ) → (m : Bool) → (index : ℕ) → (code : List ℕ) → (emitted : Bool) → Type 0
Progress destination value m index code emitted =
    ((emitted ≡ false)
      × (code ≡ [])
      × (value % place index ≡ blank m index)
      × ((index ≡ 0) ⊎ (value ≢ blank m 4)))
    ⊎ ((emitted ≡ true)
        × ((old : ℕ) → run destination code old ≡ some (value % place index + above m index)))

pub record Moved (a : Assembler) (destination value : ℕ) (m : Bool) (index : ℕ)
    (st : Assembler × Bool) : Type 0 where
  pub code : List ℕ
  pub assembler : st.0 ≡ record a { words = a.words ++ code }
  pub short : length code ≤ index
  pub progress : Progress destination value m index code st.1

module _ (a : Assembler) (destination value : ℕ) (index : ℕ) (d : destination < 32)
    (i : index < 4) where
  appended :
      (m : Bool) (now : Assembler) (emitted : Bool) (word : ℕ)
      (v : Moved a destination value m index (now, emitted))
      → ((old : ℕ)
          → run destination (v.code ++ word ∷ []) old
            ≡ some (value % place (suc index) + above m (suc index)))
      → Moved a destination value m (suc index) (emit now word, true)
  appended m now emitted word v gives = record {
    code = v.code ++ word ∷ [];
    assembler =
        ap (λ (s : Assembler). emit s word) v.assembler
        ∙ ap (λ (ws : List ℕ). record a { words = ws }) (append_assoc a.words v.code (word ∷ []));
    short = omega (arith, length-append v.code (word ∷ []), v.short);
    progress = inr (refl, gives);
  }

  small : value / place index % 2 ^ 16 < 2 ^ 16
  small = omega arith

  and_false : (m : Bool) → (m && false) ≡ false
  and_false true = refl
  and_false false = refl

  filled :
      (m : Bool)
      → (halfword_of value index == (if m then 0xffff else 0)) ≡ true
      → value / place index % 2 ^ 16 ≡ (if m then 0xffff else 0)
  filled m is = sym (halfword value index i) ∙ (==_iff _ _).0 is

  later_round :
      (m : Bool) (now : Assembler) (v : Moved a destination value m index (now, true))
      → ((old : ℕ) → run destination v.code old ≡ some (value % place index + above m index))
      → Moved a destination value m
          (suc index)
          (move_halfword destination value m index (now, true))
  unfolding move_halfword
  later_round m now v gives =
      elim (Bool-cases (halfword_of value index == (if m then 0xffff else 0))) [
        | inl is ↦
            rw (is, move_halfword)
              (record {
                code = v.code;
                assembler = v.assembler;
                short = omega (arith, v.short);
                progress =
                    inr (refl, λ old. gives old ∙ ap some (kept m value index i (filled m is)));
              })
        | inr isnt ↦
            rw (isnt, move_halfword, and_false m, halfword value index i)
              (appended m now true _ v (λ old.
                run-end destination v.code _ old _ _ (gives old)
                  (moves_keep index (value / place index % 2 ^ 16) destination _ i small d)
                ∙ ap some (replaced m value index i)))
      ]

  first_round :
      (m : Bool) (now : Assembler) (v : Moved a destination value m index (now, false))
      → v.code ≡ []
      → value % place index ≡ blank m index
      → Moved a destination value m (suc index) (
        emit now (
            bit_or
              (bit_or (bit_or (if m then 0x92800000 else 0xd2800000) (index * 2 ^ 21)) (
                (if m then 0xffff - value / place index % 2 ^ 16 else value / place index % 2 ^ 16)
                * 2 ^ 5))
              destination),
        true,
      )
  unfolding run
  first_round true now v empty blanks = appended true now false _ v (λ old.
      run-end destination v.code _ old _ _ (ap (λ (ws : List ℕ). run destination ws old) empty)
        (moves_not index (0xffff - value / place index % 2 ^ 16) destination _ i (omega arith) d)
      ∙ ap some (first_ones value index i blanks))
  first_round false now v empty blanks = appended false now false _ v (λ old.
      run-end destination v.code _ old _ _ (ap (λ (ws : List ℕ). run destination ws old) empty)
        (moves_zero index (value / place index % 2 ^ 16) destination _ i small d)
      ∙ ap some (first_zeros value index i blanks))

  start_round :
      (m : Bool) (now : Assembler) (v : Moved a destination value m index (now, false))
      → v.code ≡ []
      → value % place index ≡ blank m index
      → Moved a destination value m
          (suc index)
          (move_halfword destination value m index (now, false))
  unfolding move_halfword
  start_round true now v empty blanks =
      elim (Bool-cases (halfword_of value index == 0xffff && not (value == u64_max))) [
        | inl skip ↦
            rw (skip, move_halfword)
              (record {
                code = v.code;
                assembler = v.assembler;
                short = omega (arith, v.short);
                progress = inl (
                  refl,
                  empty,
                  still_blank true value index i blanks (filled true ((both _ _ skip).0)),
                  inr (ground (arith, skip)),
                );
              })
        | inr write ↦
            rw (write, move_halfword, halfword value index i) (first_round true now v empty blanks)
      ]
  start_round false now v empty blanks =
      elim (Bool-cases (halfword_of value index == 0 && not (value == 0))) [
        | inl skip ↦
            rw (skip, move_halfword)
              (record {
                code = v.code;
                assembler = v.assembler;
                short = omega (arith, v.short);
                progress = inl (
                  refl,
                  empty,
                  still_blank false value index i blanks (filled false ((both _ _ skip).0)),
                  inr (ground (arith, skip)),
                );
              })
        | inr write ↦
            rw (write, move_halfword, halfword value index i) (first_round false now v empty blanks)
      ]

  pub round-Moved :
      (m : Bool) (st : Assembler × Bool)
      → Moved a destination value m index st
      → Moved a destination value m (suc index) (move_halfword destination value m index st)
  round-Moved m (now, true) v = elim v.progress [
    | inl (waits, empty, blanks, start) ↦ absurd (cc)
    | inr (writes, gives) ↦ later_round m now v gives
  ]
  round-Moved m (now, false) v = elim v.progress [
    | inl (waits, empty, blanks, start) ↦ start_round m now v empty blanks
    | inr (writes, gives) ↦ absurd (cc)
  ]
