-- ===== src/Arm64/Examples.antt =====
-- A small program, run through the assembler of src/arm64/Assembler.cpp, and the theorems at it.
use rosa.Prelude.{
  All, inr, inl, leb, List, Bool-cases, if◌then◌else◌, subst, ℕ, ◌≡◌, refl, none, some, [], ◌∷◌,
  arith,
}
use rosa.Arm64.Assembler.{Assembler, compare_branch19, empty_assembler}
use rosa.Arm64.CodeBuffer.{Allocation, ExecutableArena, empty_arena, reserve, allocation_size}
use rosa.Arm64.CodeBuffer.Flush.{flush_ranges, IsCovered, flush_ranges-IsCovered}
use rosa.Arm64.CodeBuffer.Valid.{IsFresh, IsValid, with_new}
use rosa.Arm64.CodeBuffer.Reservations.{Reserves, Reserves-IsValid, reserve_gives}
use mathlib.Core.Option.{Option, some-injective}
use rosa.Arm64.Assembler.Moves.Correct.{Loads, mov_immediate-Loads}
use rosa.Arm64.Assembler.Finish.{finish}
use rosa.Arm64.Assembler.Programs.{start}

-- A backward branch: the label, an instruction, and cbz x3 to the label.
abbrev labelled : Assembler
labelled = record empty_assembler { label_positions = none ∷ [] }

abbrev bound : Assembler
bound = record empty_assembler { label_positions = some 0 ∷ [] }

abbrev looping : Assembler
looping = record {
  words = 0xd503201f ∷ 0xb4000003 ∷ [];
  label_positions = some 0 ∷ [];
  fixups = record { kind = compare_branch19; word_index = 1; label = 0 } ∷ [];
  pointer_relocations = [];
}

-- The branch's field is 2 ^ 19 - 1, which is -1.
finish-looping :
    finish looping
    ≡ some (record {
      bytes = 0x1f ∷ 0x20 ∷ 0x03 ∷ 0xd5 ∷ 0xe3 ∷ 0xff ∷ 0xff ∷ 0xb4 ∷ [];
      pointer_relocations = [];
    })
unfolding finish
finish-looping = refl

mov_immediate-Loads_example : Loads empty_assembler 3 0xffff_1234_ffff_ffff
mov_immediate-Loads_example =
    mov_immediate-Loads empty_assembler 3 0xffff_1234_ffff_ffff (omega arith) (omega arith)

-- A program of 20 bytes in a new arena whose chunks have at least 64 KiB.
abbrev small_arena : ExecutableArena
small_arena = empty_arena 0x1_0000 0x4000

abbrev first_mapping : ℕ → Option ℕ
first_mapping size = if leb size 0x1_0000 then some 0x10_0000 else none

first_mapping-IsFresh : IsFresh [] first_mapping
first_mapping-IsFresh size mapping e = elim (Bool-cases (leb size 0x1_0000)) [
  | inl small ↦
      let at : 0x10_0000 ≡ mapping = some-injective _ _ (rw small at e) in
      (omega (arith, at), ground (arith, at, small), tt)
  | inr large ↦ absurd (ground arith)
]

first_reservation : reserve small_arena 20 first_mapping ≡ (
  record {
    chunk_size = 0x1_0000;
    page_size = 0x4000;
    allocated_bytes = 0x1_0000;
    used_bytes = 20;
    chunks = record { mapping = 0x10_0000; size = 0x1_0000; used = 20 } ∷ [];
  },
  some (record { address = 0x10_0000; size = 20 }),
)
unfolding reserve
first_reservation = refl

abbrev first_allocations : List Allocation
first_allocations = record { address = 0x10_0000; size = 20 } ∷ []

abbrev first_arena : ExecutableArena
first_arena = record {
  chunk_size = 0x1_0000;
  page_size = 0x4000;
  allocated_bytes = 0x1_0000;
  used_bytes = 20;
  chunks = record { mapping = 0x10_0000; size = 0x1_0000; used = 20 } ∷ [];
}

first_arena-Reserves : Reserves 0x1_0000 0x4000 first_arena first_allocations
first_arena-Reserves =
    subst (λ r. Reserves 0x1_0000 0x4000 r.0 (with_new r.1 [])) first_reservation
      (Reserves.then_reserve 20 first_mapping Reserves.start first_mapping-IsFresh)

Reserves-IsValid_example : IsValid first_arena first_allocations
Reserves-IsValid_example = Reserves-IsValid first_arena-Reserves

reserve_gives_example :
    (a : Allocation) × ((reserve small_arena 20 first_mapping).1 ≡ some a) × (a.size ≡ 20)
unfolding allocation_size
reserve_gives_example =
    reserve_gives small_arena [] 20 first_mapping (Reserves-IsValid Reserves.start)
      first_mapping-IsFresh 0x1_0000 0x10_0000 (omega arith) refl (omega arith) refl

-- Two neighbours and a far one.
abbrev batch : List Allocation
batch =
    record { address = 0x10_0000; size = 20 }
    ∷ record { address = 0x10_0020; size = 8 }
    ∷ record { address = 0x20_0000; size = 4 }
    ∷ []

flush_ranges-batch :
    flush_ranges batch
    ≡ record { start = 0x10_0000; size = 40 } ∷ record { start = 0x20_0000; size = 4 } ∷ []
unfolding flush_ranges
flush_ranges-batch = refl

flush_ranges-IsCovered_example : All (IsCovered (flush_ranges batch)) batch
flush_ranges-IsCovered_example = flush_ranges-IsCovered batch
