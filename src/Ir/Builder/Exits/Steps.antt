-- ===== src/Ir/Builder/Exits/Steps.antt =====
-- The calls of Builder that Ir/Builder/Exits models, as steps, and what they keep.
use rosa.Prelude.{ℕ, ◌<◌, Bool, refl}
use rosa.Flags.Select.{Width}
use rosa.Ir.{Opcode, Block, number}
use rosa.Ir.Builder.Exits
use rosa.Ir.Builder.Built.{IsBuilding, used, unused, append-IsBuilding}

module _ (block : Block) (lhs rhs third : ℕ) (width : Width) (m n k rip : ℕ) (flag : Bool) where
  -- A call with these arguments, its values those of earlier calls.
  pub data ExitStep : Block → Type 0 where
    exit_block : ExitStep (Exits.exit_block rip block)
    exit_direct : ExitStep (Exits.exit_direct m rip block)
    exit_direct_to_value :
        lhs < block.value_count → ExitStep (Exits.exit_direct_to_value lhs rip block)
    exit_conditional : ExitStep (Exits.exit_conditional m n k rip block)
    exit_call : ExitStep (Exits.exit_call m n rip block)
    exit_call_to_value :
        lhs < block.value_count → ExitStep (Exits.exit_call_to_value lhs m rip block)
    exit_syscall : ExitStep (Exits.exit_syscall m rip block)

  pub ExitStep-IsBuilding : (next : Block) → ExitStep next → IsBuilding block → IsBuilding next
  unfolding number Exits.exit_block Exits.exit_direct Exits.exit_direct_to_value
      Exits.exit_conditional Exits.exit_call Exits.exit_call_to_value Exits.exit_syscall
  ExitStep-IsBuilding next step building = elim step as (λ reached taken. IsBuilding reached) [
    | exit_block ↦
        append-IsBuilding block _ unused unused unused Opcode.exit_block refl refl refl building
    | exit_direct ↦
        append-IsBuilding block _ unused unused unused Opcode.exit_block refl refl refl building
    | exit_direct_to_value a ↦
        append-IsBuilding block _ (used a) unused unused Opcode.exit_block refl refl refl building
    | exit_conditional ↦
        append-IsBuilding block _ unused unused unused Opcode.exit_block refl refl refl building
    | exit_call ↦
        append-IsBuilding block _ unused unused unused Opcode.exit_block refl refl refl building
    | exit_call_to_value a ↦
        append-IsBuilding block _ (used a) unused unused Opcode.exit_block refl refl refl building
    | exit_syscall ↦
        append-IsBuilding block _ unused unused unused Opcode.exit_block refl refl refl building
  ]
