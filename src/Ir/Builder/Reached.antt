-- ===== src/Ir/Builder/Reached.antt =====
-- Blocks as Builder makes them (src/ir/IR.cpp), call by call.
use rosa.Prelude.{ℕ, ◌^◌, ◌<◌, ◌≡◌, refl, Bool, length, arith}
use rosa.Flags.Select.{Width}
use rosa.Ir.{Block}
use rosa.Ir.Optimization.{optimize_block}
use rosa.Ir.Optimization.Invariant.{AllBuilt}
use rosa.Ir.Optimization.Correct.{run-optimize_block}
use rosa.Ir.Meaning.{Guest, Machine, run}
use rosa.Ir.Builder.{new_block}
use rosa.Ir.Builder.Built.{IsBuilding}
use rosa.Ir.Builder.Integers.Steps.{IntegerStep, IntegerStep-IsBuilding}
use rosa.Ir.Builder.Lanes.Steps.{LaneStep, LaneStep-IsBuilding}
use rosa.Ir.Builder.Packed.Steps.{PackedStep, PackedStep-IsBuilding}
use rosa.Ir.Builder.Memory.Steps.{MemoryStep, MemoryStep-IsBuilding}
use rosa.Ir.Builder.Special.Steps.{SpecialStep, SpecialStep-IsBuilding}
use rosa.Ir.Builder.Flags.Steps.{FlagStep, FlagStep-IsBuilding}
use rosa.Ir.Builder.Exits.Steps.{ExitStep, ExitStep-IsBuilding}

-- The blocks that calls of Builder reach from an empty one, each call with values that earlier calls returned.
pub data Reached (start : ℕ) : Block → Type 0 where
  new : Reached start (new_block start)
  integers :
      (lhs rhs third : ℕ) (width : Width) (m n k rip : ℕ) (flag : Bool) {block next : Block}
      → Reached start block
      → IntegerStep block lhs rhs third width m n k rip flag next
      → Reached start next
  lanes :
      (lhs rhs third : ℕ) (width : Width) (m n k rip : ℕ) (flag : Bool) {block next : Block}
      → Reached start block
      → LaneStep block lhs rhs third width m n k rip flag next
      → Reached start next
  packed :
      (lhs rhs third : ℕ) (width : Width) (m n k rip : ℕ) (flag : Bool) {block next : Block}
      → Reached start block
      → PackedStep block lhs rhs third width m n k rip flag next
      → Reached start next
  memory :
      (lhs rhs third : ℕ) (width : Width) (m n k rip : ℕ) (flag : Bool) {block next : Block}
      → Reached start block
      → MemoryStep block lhs rhs third width m n k rip flag next
      → Reached start next
  special :
      (lhs rhs third : ℕ) (width : Width) (m n k rip : ℕ) (flag : Bool) {block next : Block}
      → Reached start block
      → SpecialStep block lhs rhs third width m n k rip flag next
      → Reached start next
  flags :
      (lhs rhs third : ℕ) (width : Width) (m n k rip : ℕ) (flag : Bool) {block next : Block}
      → Reached start block
      → FlagStep block lhs rhs third width m n k rip flag next
      → Reached start next
  exits :
      (lhs rhs third : ℕ) (width : Width) (m n k rip : ℕ) (flag : Bool) {block next : Block}
      → Reached start block
      → ExitStep block lhs rhs third width m n k rip flag next
      → Reached start next

new-IsBuilding : (start : ℕ) → IsBuilding (new_block start)
new-IsBuilding start small = record { built = tt; count = refl; few = omega arith }

Reached-IsBuilding : {start : ℕ} {block : Block} → Reached start block → IsBuilding block
Reached-IsBuilding {start} new = new-IsBuilding start
Reached-IsBuilding (integers lhs rhs third width m n k rip flag reached step) =
    IntegerStep-IsBuilding _ lhs rhs third width m n k rip flag _ step (Reached-IsBuilding reached)
Reached-IsBuilding (lanes lhs rhs third width m n k rip flag reached step) =
    LaneStep-IsBuilding _ lhs rhs third width m n k rip flag _ step (Reached-IsBuilding reached)
Reached-IsBuilding (packed lhs rhs third width m n k rip flag reached step) =
    PackedStep-IsBuilding _ lhs rhs third width m n k rip flag _ step (Reached-IsBuilding reached)
Reached-IsBuilding (memory lhs rhs third width m n k rip flag reached step) =
    MemoryStep-IsBuilding _ lhs rhs third width m n k rip flag _ step (Reached-IsBuilding reached)
Reached-IsBuilding (special lhs rhs third width m n k rip flag reached step) =
    SpecialStep-IsBuilding _ lhs rhs third width m n k rip flag _ step (Reached-IsBuilding reached)
Reached-IsBuilding (flags lhs rhs third width m n k rip flag reached step) =
    FlagStep-IsBuilding _ lhs rhs third width m n k rip flag _ step (Reached-IsBuilding reached)
Reached-IsBuilding (exits lhs rhs third width m n k rip flag reached step) =
    ExitStep-IsBuilding _ lhs rhs third width m n k rip flag _ step (Reached-IsBuilding reached)

-- A block that calls of Builder reach, each with values that earlier calls returned, and that has fewer than
-- 2^32 operations, has its results numbered in order, uses no value before its definition, and names a
-- register in every write of a guest register.
pub Reached-AllBuilt :
    (start : ℕ) (block : Block)
    → Reached start block
    → length block.operations < 2 ^ 32
    → AllBuilt 0 block.operations
Reached-AllBuilt start block reached small = (Reached-IsBuilding reached small).built

-- A block that calls of Builder reach, each with values that earlier calls returned, and that has fewer than
-- 2^32 operations, does the same to every guest state, on every machine, before and after optimizeBlock:
-- it leaves the same registers and the same rest of the state, from the same contents of the values.
pub run-optimize_block-Reached {ℓ} :
    {World : Type ℓ} (machine : Machine World) (start : ℕ) (block : Block) (values : ℕ → ℕ)
    (guest : Guest World)
    → Reached start block
    → length block.operations < 2 ^ 32
    → run machine (optimize_block block).operations values guest
      ≡ run machine block.operations values guest
run-optimize_block-Reached machine start block values guest reached small =
    run-optimize_block machine block values guest (Reached-AllBuilt start block reached small)
