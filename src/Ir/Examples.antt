-- ===== src/Ir/Examples.antt =====
-- A block made by calls of Builder (src/ir/IR.cpp), a machine, and the pass of src/ir/Optimization.cpp on it.
use rosa.Prelude.{
  ℕ, suc, ◌≡◌, refl, sym, ap, false, Bool-cases, Option, none, some, List, [], ◌∷◌, if◌then◌else◌,
  arith, inl, inr,
}
use rosa.Flags.Select.{i64}
use rosa.Ir.{Opcode, Operation, Block, is, number, has, has_width, bits, one_of, the, is_same}
use rosa.Ir.Optimization.{
  optimize_block, forward_full_width_guest_reads, has_internal_self_edge, is_safely_repeatable,
  any_of, all_of, forwards_across_loads, forwards_across_stores, forward_all, initial, forward,
  canonical, canonicalize, resolve, replacement, repeated, forwarded, find_equivalent,
  is_equivalent, keep, replace, next_known, written, read, index, reads_register, gives_zero,
  gives_zero_extended, preserves_host_values,
}
use rosa.Ir.Optimization.Invariant.{AllBuilt}
use rosa.Ir.Meaning.{
  Guest, Machine, Outcome, continues, leaves, run, execute, operand, define, read_value, merged,
  arithmetic,
}
use rosa.Ir.Meaning.Facts.{same_value, same_guest}
use rosa.Ir.Builder.{new_block, append, next_value, define_value}
use rosa.Ir.Builder.Integers
use rosa.Ir.Builder.Exits
use rosa.Ir.Builder.Integers.Steps.{IntegerStep}
use rosa.Ir.Builder.Exits.Steps.{ExitStep}
use rosa.Ir.Optimization.Ends.{resolve-IsEnded}
use rosa.Ir.Builder.Reached.{Reached, Reached-AllBuilt, run-optimize_block-Reached}

-- rax + 5 is stored in rax, which is read again and stored in rbx.
abbrev sum_block : Block
sum_block = Exits.exit_direct 0x2000 0x1008 (
    Integers.write_guest_register 3 3 i64 0x1004
      (Integers.read_guest_register 0 i64 0x1004 (
        Integers.write_guest_register 0 2 i64 0x1000
          (Integers.add 0 1 i64 0x1000
            (Integers.constant 5 i64 0x1000
              (Integers.read_guest_register 0 i64 0x1000 (new_block 0x1000)).1).1).1)).1)

-- Leaves a block at its exit, and counts the exits.
unfoldable count : Operation → (lhs rhs third : Option ℕ) → Guest ℕ → Outcome ℕ
unfolding is
count operation lhs rhs third guest =
    if is Opcode.exit_block operation
    then leaves (record guest { world = suc guest.world })
    else continues guest 0

count-goes_on :
    (operation : Operation) (lhs rhs third : Option ℕ) (guest next : Guest ℕ) (value : ℕ)
    → count operation lhs rhs third guest ≡ continues next value
    → (value ≡ 0) × (next ≡ guest)
unfolding count
count-goes_on operation lhs rhs third guest next value e =
    elim (Bool-cases (is Opcode.exit_block operation)) [
      | inl leaving ↦
          let out : leaves (record guest { world = suc guest.world }) ≡ continues next value =
            rw (leaving, count) at e in
          absurd (cc)
      | inr staying ↦
          let out : continues guest 0 ≡ continues next value = rw (staying, count) at e in
          (sym (same_value out), sym (same_guest out))
    ]

abbrev counting : Machine ℕ
counting = record {
  effect = count;
  condition_fits = λ operation lhs rhs third guest next value h e.
      rw (count-goes_on operation lhs rhs third guest next value e).0 (omega arith);
  load_fits = λ operation lhs rhs third guest next value h w e.
      rw (count-goes_on operation lhs rhs third guest next value e).0 (omega arith);
  registers_stay = λ operation lhs rhs third guest next value h e register.
      ap (λ (g : Guest ℕ). g.registers register)
        (count-goes_on operation lhs rhs third guest next value e).1;
  others_stay = λ operation lhs rhs third guest next value h g e register apart.
      ap (λ (g : Guest ℕ). g.registers register)
        (count-goes_on operation lhs rhs third guest next value e).1;
}

-- Every register holds 7.
abbrev sevens : Guest ℕ
sevens = record { registers = λ register. 7; world = 0 }

abbrev stored : List Operation → List (Option ℕ)
stored [] = []
stored (operation ∷ operations) = operation.lhs ∷ stored operations

-- The second read of rax is gone, and the sum itself is stored in rbx.
sum_optimized :
    stored (optimize_block sum_block).operations
    ≡ none ∷ none ∷ some 0 ∷ some 2 ∷ some 2 ∷ none ∷ []
unfolding append next_value define_value Integers.read_guest_register Integers.constant Integers.add
    Integers.write_guest_register Exits.exit_direct optimize_block forward_full_width_guest_reads
    has_internal_self_edge is_safely_repeatable any_of all_of forwards_across_loads
    forwards_across_stores forward_all forward canonical canonicalize resolve replacement repeated
    forwarded find_equivalent is_equivalent keep replace next_known written read index
    reads_register gives_zero gives_zero_extended preserves_host_values is number has has_width bits
    one_of the is_same
sum_optimized = refl

sum_result : (run counting sum_block.operations (λ v. 0) sevens).registers 3 ≡ 12
unfolding append next_value define_value Integers.read_guest_register Integers.constant Integers.add
    Integers.write_guest_register Exits.exit_direct run execute operand define read_value merged
    arithmetic is number has has_width bits the count
sum_result = refl

sum_block-Reached : Reached 0x1000 sum_block
unfolding append next_value define_value Integers.read_guest_register Integers.constant Integers.add
    Integers.write_guest_register Exits.exit_direct
sum_block-Reached =
    Reached.exits 0 0 0 i64 0x2000 0 0 0x1008 false
      (Reached.integers 3 0 0 i64 3 0 0 0x1004 false
        (Reached.integers 0 0 0 i64 0 0 0 0x1004 false
          (Reached.integers 2 0 0 i64 0 0 0 0x1000 false
            (Reached.integers 0 1 0 i64 0 0 0 0x1000 false
              (Reached.integers 0 0 0 i64 5 0 0 0x1000 false
                (Reached.integers 0 0 0 i64 0 0 0 0x1000 false Reached.new
                  IntegerStep.read_guest_register)
                IntegerStep.constant)
              (IntegerStep.add (omega arith) (omega arith)))
            (IntegerStep.write_guest_register (omega arith)))
          IntegerStep.read_guest_register)
        (IntegerStep.write_guest_register (omega arith)))
      ExitStep.exit_direct

Reached-AllBuilt_example : AllBuilt 0 sum_block.operations
unfolding append next_value define_value Integers.read_guest_register Integers.constant Integers.add
    Integers.write_guest_register Exits.exit_direct
Reached-AllBuilt_example = Reached-AllBuilt 0x1000 sum_block sum_block-Reached (omega arith)

run-optimize_block-Reached_example :
    run counting (optimize_block sum_block).operations (λ v. 0) sevens
    ≡ run counting sum_block.operations (λ v. 0) sevens
unfolding append next_value define_value Integers.read_guest_register Integers.constant Integers.add
    Integers.write_guest_register Exits.exit_direct
run-optimize_block-Reached_example =
    run-optimize_block-Reached counting 0x1000 sum_block (λ v. 0) sevens sum_block-Reached
      (omega arith)

-- At the block's end, value 3 is replaced by value 2.
resolve-IsEnded_example :
    let st = forward_all 5 false false initial sum_block.operations in
    let found = resolve 5 st.replacements 3 in st.replacements found ≡ found
unfolding append next_value define_value Integers.read_guest_register Integers.constant Integers.add
    Integers.write_guest_register Exits.exit_direct
resolve-IsEnded_example =
    resolve-IsEnded 0x1000 sum_block false false sum_block.operations [] 3 sum_block-Reached
      (omega arith) refl
