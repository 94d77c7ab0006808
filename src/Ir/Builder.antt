-- ===== src/Ir/Builder.antt =====
-- Builder of src/ir/IR.cpp, on the block it builds.
pub mod Integers
pub mod Lanes
pub mod Packed
pub mod Memory
pub mod Special
pub mod Flags
pub mod Exits
pub mod Built
pub mod Reached
use rosa.Prelude.{ℕ, ◌+◌, none, some, [], ◌∷◌, ◌++◌, u32}
use rosa.Flags.Select.{Width}
use rosa.Ir.{Opcode, ExitKind, Operation, Block}

-- Builder's constructor
abbrev pub new_block : (start : ℕ) → Block
new_block start = record { start = start; operations = []; value_count = 0 }

-- An Operation with the other members as their initialisers leave them.
abbrev pub at : Opcode → Width → (guest_rip : ℕ) → Operation
at opcode width guest_rip = record {
  opcode = opcode;
  width = width;
  guest_rip = guest_rip;
  result = none;
  lhs = none;
  rhs = none;
  third = none;
  guest_register = none;
  guest_xmm_register = none;
  source_guest_xmm_register = none;
  target = none;
  fallthrough = none;
  condition = none;
  exit_kind = ExitKind.returns;
  immediate = 0;
}

-- block_.operations.push_back
unfoldable pub append : Operation → Block → Block
append operation block = record block { operations = block.operations ++ operation ∷ [] }

-- block_.valueCount++, on 32 bits
unfoldable pub next_value : Block → ℕ × Block
next_value block = (block.value_count, record block { value_count = u32 (block.value_count + 1) })

-- nextValue, the operation with the new value as its result, and the value.
unfoldable pub define_value : Operation → Block → ℕ × Block
unfolding next_value append
define_value operation block =
    let (result, counted) = next_value block in
    (result, append (record operation { result = some result }) counted)
