-- ===== src/Arm64/Assembler/Programs.antt =====
-- The assembler as a state machine (src/arm64/Assembler.cpp): labels, branches and other words in any order,
-- and then the program.
use rosa.Prelude.{ℕ, ◌≡◌, some, List, length, get_elem?, All}
use rosa.Arm64.Assembler.{Assembler, emit, make_label, bind, empty_assembler}
use rosa.Arm64.Assembler.Moves.{mov_pointer}
use rosa.Arm64.Assembler.Branches.{b, cbz, cbnz, b_conditional, tbz, tbnz}
use rosa.Arm64.Assembler.Finish.{Program, bytes_of}
use rosa.Arm64.Assembler.Finish.Pending.{Pending, Elsewhere, Jumps}

-- One call on the assembler. An instruction that names no label is a word.
pub data Step (s : Assembler) : Assembler → Type 0 where
  instruction : (word : ℕ) → Step s (emit s word)
  pointer :
      {t : Assembler} (destination value : ℕ) → mov_pointer s destination value ≡ some t → Step s t
  labels : {t : Assembler} (label : ℕ) → make_label s ≡ some (label, t) → Step s t
  binds : {t : Assembler} (label : ℕ) → bind s label ≡ some t → Step s t
  jumps : {t : Assembler} (label : ℕ) → b s label ≡ some t → Step s t
  if_zero : {t : Assembler} (value label : ℕ) → cbz s value label ≡ some t → Step s t
  if_nonzero : {t : Assembler} (value label : ℕ) → cbnz s value label ≡ some t → Step s t
  on_condition :
      {t : Assembler} (condition label : ℕ) → b_conditional s condition label ≡ some t → Step s t
  if_bit_zero : {t : Assembler} (value bit label : ℕ) → tbz s value bit label ≡ some t → Step s t
  if_bit_nonzero :
      {t : Assembler} (value bit label : ℕ) → tbnz s value bit label ≡ some t → Step s t

pub data Assembled : Assembler → Type 0 where
  start : Assembled empty_assembler
  then_step : {s t : Assembler} → Assembled s → Step s t → Assembled t

abbrev IsPending : Assembler → Type 0
IsPending s = Pending s.words s.fixups

-- What the program of an assembler is: its words are those of the assembler, but for the branches, which
-- jump to where their labels are bound and keep the rest of their words.
pub record Linked (s : Assembler) (program : Program) : Type 0 where
  pub words : List ℕ
  pub bytes : program.bytes ≡ bytes_of words
  pub relocations : program.pointer_relocations ≡ s.pointer_relocations
  pub size : length words ≡ length s.words
  pub branches : All (Jumps s.label_positions s.words words) s.fixups
  pub others :
      (index : ℕ) → All (Elsewhere index) s.fixups → get_elem? words index ≡ get_elem? s.words index
