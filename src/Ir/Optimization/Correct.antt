-- ===== src/Ir/Optimization/Correct.antt =====
-- A block before and after the pass of src/ir/Optimization.cpp.
use rosa.Prelude.{
  ℕ, suc, ◌≡◌, refl, sym, ap, ◌∙◌, ◌⊎◌, inl, inr, Bool, List, [], ◌∷◌, arith, Option-cases,
}
use rosa.Ir.{Operation, Block}
use rosa.Ir.Optimization.{
  Forwarding, canonical, replacement, keep, initial, forward_full_width_guest_reads,
  forwards_across_loads, forwards_across_stores, optimize_block, has_internal_self_edge,
}
use rosa.Ir.Optimization.Invariant.{next_after, AllBuilt, Related}
use rosa.Ir.Optimization.Registers.{unknown-IsKnown}
use rosa.Ir.Optimization.Replacements.{Goes, replacement-Goes}
use rosa.Ir.Meaning.{Guest, Machine, Outcome, execute, continues, leaves, operand, define, run}
use rosa.Ir.Optimization.Appended.{appended, forward_all-appended}
use rosa.Ir.Optimization.Kept.{
  canonical_original, canonical_staying, is_next, gone-Related, stayed-Related, original_outcome,
}

module _ {ℓ} {World : Type ℓ} (machine : Machine World) (steps : ℕ)
    (across_loads across_stores : Bool) where
  Outcome-cases :
      (out : Outcome World)
      → ((next : Guest World) × (out ≡ leaves next))
        ⊎ ((next : Guest World) × ((value : ℕ) × (out ≡ continues next value)))
  Outcome-cases (leaves next) = inl (next, refl)
  Outcome-cases (continues next value) = inr (next, (value, refl))

  run_continues :
      (operation : Operation) (operations : List Operation) (values : ℕ → ℕ)
      (guest after : Guest World) (value : ℕ)
      → execute machine operation
          (operand values operation.lhs)
          (operand values operation.rhs)
          (operand values operation.third)
          guest
        ≡ continues after value
      → run machine (operation ∷ operations) values guest
        ≡ run machine operations (define values operation.result value) after
  unfolding run
  run_continues operation operations values guest after value e =
      ap (go operations (define values operation.result)) e
    where
      go : List Operation → (ℕ → ℕ → ℕ) → Outcome World → Guest World
      go rest stored (continues next v) = run machine rest (stored v) next
      go rest stored (leaves next) = next

  run_leaves :
      (operation : Operation) (operations : List Operation) (values : ℕ → ℕ)
      (guest after : Guest World)
      → execute machine operation
          (operand values operation.lhs)
          (operand values operation.rhs)
          (operand values operation.third)
          guest
        ≡ leaves after
      → run machine (operation ∷ operations) values guest ≡ after
  unfolding run
  run_leaves operation operations values guest after e =
      ap (go operations (define values operation.result)) e
    where
      go : List Operation → (ℕ → ℕ → ℕ) → Outcome World → Guest World
      go rest stored (continues next v) = run machine rest (stored v) next
      go rest stored (leaves next) = next

  -- A run of what the loop appends is a run of the block.
  run-appended :
      (operations : List Operation) (next : ℕ) (original staying : ℕ → ℕ) (st : Forwarding)
      (guest : Guest World)
      → Related next original staying guest.registers st
      → AllBuilt next operations
      → run machine (appended steps across_loads across_stores st operations) staying guest
        ≡ run machine operations original guest
  unfolding run appended
  run-appended [] next original staying st guest r built = refl
  run-appended (operation ∷ operations) next original staying st guest r built =
      elim (Option-cases (
        replacement (suc steps) across_loads across_stores st
          (canonical (suc steps) st.replacements operation))) [
            | inr (s, e) ↦
                let g : Goes machine steps next across_loads across_stores original staying st guest
                    r (canonical (suc steps) st.replacements operation)
                    (operand original operation.third) s =
                  replacement-Goes machine steps next across_loads across_stores original staying st
                    guest r (canonical (suc steps) st.replacements operation)
                    (operand original operation.third)
                    (is_next machine steps across_loads across_stores next original staying st guest
                      r operation built.0)
                    s e in
                rw (e, appended)
                  (run-appended operations (next_after next operation)
                      (define original operation.result g.value) staying _ guest
                      (gone-Related machine steps across_loads across_stores next original staying
                        st guest r operation built.0 s g)
                      built.1
                    ∙ sym (
                        run_continues operation operations original guest guest g.value (
                          sym (
                            canonical_original machine steps across_loads across_stores next
                              original staying st guest r operation built.0)
                          ∙ g.runs)))
            | inl e ↦
                elim (Outcome-cases (
                  original_outcome machine steps across_loads across_stores next original staying st
                    guest r operation built.0)) [
                      | inl (after, out) ↦
                          rw (e, appended)
                            (run_leaves (canonical (suc steps) st.replacements operation)
                                (appended steps across_loads across_stores
                                  (keep (suc steps) across_loads across_stores st
                                    (canonical (suc steps) st.replacements operation))
                                  operations)
                                staying guest after
                                (canonical_staying machine steps across_loads across_stores next
                                    original staying st guest r operation built.0
                                  ∙ out)
                              ∙ sym (run_leaves operation operations original guest after out))
                      | inr (after, (value, out)) ↦
                          rw (e, appended)
                            (run_continues (canonical (suc steps) st.replacements operation)
                                (appended steps across_loads across_stores
                                  (keep (suc steps) across_loads across_stores st
                                    (canonical (suc steps) st.replacements operation))
                                  operations)
                                staying guest after value
                                (canonical_staying machine steps across_loads across_stores next
                                    original staying st guest r operation built.0
                                  ∙ out)
                              ∙ run-appended operations (next_after next operation)
                                  (define original operation.result value)
                                  (define staying operation.result value) _ after
                                  (stayed-Related machine steps across_loads across_stores next
                                    original staying st guest r operation built.0 after value out)
                                  built.1
                              ∙ sym (
                                  run_continues operation operations original guest after value
                                    out))
                    ]
          ]

pub initial-Related : (values registers : ℕ → ℕ) → Related 0 values values registers initial
initial-Related values registers = record {
  below = λ v l. absurd (omega arith);
  idempotent = λ v l. refl;
  same = λ v l. refl;
  fresh = λ v l. (refl, refl);
  zero_extended = λ v l. absurd (omega arith);
  zeros = λ v l. absurd (omega arith);
  conditions = λ v l. absurd (omega arith);
  registers_known = λ i small. unknown-IsKnown 0 (registers i) values;
  sums = tt;
}

-- A block whose operations are as Builder makes them (operands defined before, results numbered in order,
-- writes with a register) does the same to every guest state, on every machine, before and after
-- optimizeBlock: it leaves the same registers and the same rest of the state, where the values start
-- with the same contents.
pub run-optimize_block {ℓ} :
    {World : Type ℓ} (machine : Machine World) (block : Block) (values : ℕ → ℕ)
    (guest : Guest World)
    → AllBuilt 0 block.operations
    → run machine (optimize_block block).operations values guest
      ≡ run machine block.operations values guest
unfolding optimize_block forward_full_width_guest_reads
run-optimize_block machine block values guest built =
    let loads : Bool = forwards_across_loads block (has_internal_self_edge block) in
    let stores : Bool = forwards_across_stores block (has_internal_self_edge block) in
    ap (λ (operations : List Operation). run machine operations values guest)
      (forward_all-appended block.value_count loads stores initial block.operations)
    ∙ run-appended machine block.value_count loads stores block.operations 0 values values initial
        guest (initial-Related values guest.registers) built
