-- ===== src/Arm64/Assembler/Moves/Correct.antt =====
-- The constant that movImmediate puts into a register (src/arm64/Assembler.cpp).
use rosa.Prelude.{
  ℕ, ◌%◌, ◌≤◌, ◌<◌, ◌≡◌, refl, sym, ap, ◌∙◌, inl, inr, Bool, true, false, some, List, [], ◌++◌,
  arith, length, u64_max,
}
use mathlib.Core.List.{append-nil}
use rosa.Arm64.Assembler.{Assembler, is_register}
use rosa.Arm64.Assembler.Moves.Halfwords.{place, blank}
use rosa.Arm64.Assembler.Moves.{uses_movn, move_halfword, mov_immediate}
use rosa.Arm64.Assembler.Moves.Wide.{run}
use rosa.Arm64.Assembler.Moves.Rounds.{Progress, Moved, round-Moved}

-- What `mov_immediate` does to the assembler and to the register.
pub record Loads (a : Assembler) (destination value : ℕ) : Type 0 where
  pub code : List ℕ
  pub appends : mov_immediate a destination value ≡ some (record a { words = a.words ++ code })
  pub short : length code ≤ 4
  pub loads : (old : ℕ) → run destination code old ≡ some value

-- The four rounds.
Moved-Loads :
    (a : Assembler) (destination value : ℕ) (m : Bool) (st : Assembler × Bool)
    → value ≤ u64_max
    → Moved a destination value m 4 st
    → (code : List ℕ) × (st.0 ≡ record a { words = a.words ++ code })
      × (length code ≤ 4)
      × ((old : ℕ) → run destination code old ≡ some value)
Moved-Loads a destination value m st fits v = (v.code, v.assembler, v.short, gives v.progress)
  where
    gives :
        Progress destination value m 4 v.code st.1
        → (old : ℕ) → run destination v.code old ≡ some value
    gives (inl (waits, empty, blanks, inl never)) = absurd (omega (arith, never))
    gives (inl (waits, empty, blanks, inr other)) = absurd (other (ground (arith, blanks)))
    gives (inr (writes, all)) = λ old. all old ∙ ap some (ground arith)

-- The code of a constant of 64 bits for a register that the assembler knows, when it is run, gives the
-- register that constant, whatever it held; the code has at most four instructions, and the assembler is
-- otherwise as it was.
pub mov_immediate-Loads :
    (a : Assembler) (destination value : ℕ)
    → destination ≤ 30
    → value ≤ u64_max
    → Loads a destination value
unfolding mov_immediate
mov_immediate-Loads a destination value r fits =
    let m : Bool = uses_movn value in
    let begin : Moved a destination value m 0 (a, false) = record {
      code = [];
      assembler = ap (λ (ws : List ℕ). record a { words = ws }) (sym (append-nil a.words));
      short = omega arith;
      progress = inl (refl, refl, first m, inl refl);
    } in
    let step = λ (i : ℕ). move_halfword destination value m i in
    let done : Moved a destination value m 4 (step 3 (step 2 (step 1 (step 0 (a, false))))) =
      round-Moved a destination value 3 d (omega arith) m _ (
        round-Moved a destination value 2 d (omega arith) m _ (
          round-Moved a destination value 1 d (omega arith) m _
            (round-Moved a destination value 0 d (omega arith) m _ begin))) in
    let (code, is, short, loads) = Moved-Loads a destination value m _ fits done in
    let ok : is_register destination ≡ true = ground arith in
    record { code = code; appends = rw ok (ap some is); short = short; loads = loads }
  where
    d : destination < 32
    d = omega arith

    first : (m : Bool) → value % place 0 ≡ blank m 0
    first true = omega arith
    first false = omega arith
