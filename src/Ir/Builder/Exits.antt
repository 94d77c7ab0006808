-- ===== src/Ir/Builder/Exits.antt =====
-- Builder of src/ir/IR.cpp: the exits of a block.
pub mod Steps
use rosa.Prelude.{ℕ, Bool, some, if◌then◌else◌}
use rosa.Flags.Select.{Width, i8, i16, i32, i64}
use rosa.Ir.{Opcode, ExitKind, Block}
use rosa.Ir.Builder.{at, append, define_value}

unfoldable pub exit_block : (rip : ℕ) → Block → Block
exit_block rip = append (record (at Opcode.exit_block i64 rip) { exit_kind = ExitKind.returns })

unfoldable pub exit_direct : (target rip : ℕ) → Block → Block
exit_direct target rip =
    append
      (record (at Opcode.exit_block i64 rip) { target = some target; exit_kind = ExitKind.direct })

unfoldable pub exit_direct_to_value : (target rip : ℕ) → Block → Block
exit_direct_to_value target rip =
    append
      (record (at Opcode.exit_block i64 rip) { lhs = some target; exit_kind = ExitKind.direct })

unfoldable pub exit_conditional : (condition target fallthrough rip : ℕ) → Block → Block
exit_conditional condition target fallthrough rip = append (record (at Opcode.exit_block i64 rip) {
  target = some target;
  fallthrough = some fallthrough;
  condition = some condition;
  exit_kind = ExitKind.conditional;
})

unfoldable pub exit_call : (target return_address rip : ℕ) → Block → Block
exit_call target return_address rip = append (record (at Opcode.exit_block i64 rip) {
  target = some target;
  fallthrough = some return_address;
  exit_kind = ExitKind.calls;
})

unfoldable pub exit_call_to_value : (target return_address rip : ℕ) → Block → Block
exit_call_to_value target return_address rip = append (record (at Opcode.exit_block i64 rip) {
  lhs = some target;
  fallthrough = some return_address;
  exit_kind = ExitKind.calls;
})

unfoldable pub exit_syscall : (next_rip rip : ℕ) → Block → Block
exit_syscall next_rip rip = append (record (at Opcode.exit_block i64 rip) {
  target = some next_rip;
  exit_kind = ExitKind.system_call;
})
