-- ===== src/Ir/Optimization/Ends.antt =====
-- The search for a value's replacement in src/ir/Optimization.cpp, a loop that follows the replacements.
use rosa.Prelude.{
  ℕ, suc, ◌<◌, ◌^◌, ◌≡◌, sym, ap, subst, Bool, Option, List, [], ◌∷◌, ◌++◌, arith, length, inl, inr,
  Option-cases, Bool-cases, ltb, ltb,
}
use mathlib.Core.Path.{◌≡◌}
use rosa.Ir.{Operation, Block}
use rosa.Ir.Optimization.{
  Forwarding, resolve, canonical, replacement, forward, forward_all, initial,
}
use rosa.Ir.Optimization.Invariant.{next_after, AllBuilt, Related, resolve-fixed}
use rosa.Ir.Optimization.Replacements.{Goes, replacement-Goes}
use rosa.Ir.Optimization.Kept.{is_next, gone-Related, stayed-Related}
use rosa.Ir.Optimization.Correct.{initial-Related}
use rosa.Ir.Meaning.{Guest, Machine, execute, continues, operand, define}
use rosa.Ir.Meaning.Cases.{constants, reads, writes, calculates, others, execute-Ran}
use rosa.Ir.Meaning.Facts.{same_value, same_guest}
use rosa.Ir.Builder.Reached.{Reached, Reached-AllBuilt}

-- A machine on which no operation leaves the block, to follow the loop to the block's end.
abbrev staying_machine : Machine ℕ
staying_machine = record {
  effect = λ operation lhs rhs third guest. continues guest 0;
  condition_fits =
      λ operation lhs rhs third guest next value h e. rw (sym (same_value e)) (omega arith);
  load_fits =
      λ operation lhs rhs third guest next value h w e. rw (sym (same_value e)) (omega arith);
  registers_stay = λ operation lhs rhs third guest next value h e register.
      ap (λ (g : Guest ℕ). g.registers register) (sym (same_guest e));
  others_stay = λ operation lhs rhs third guest next value h g e register apart.
      ap (λ (g : Guest ℕ). g.registers register) (sym (same_guest e));
}

goes_on :
    (operation : Operation) (lhs rhs third : Option ℕ) (guest : Guest ℕ)
    → (after : Guest ℕ) × ((value : ℕ) × (execute staying_machine operation lhs rhs third guest
          ≡ continues after value))
goes_on operation lhs rhs third guest =
    elim (execute-Ran staying_machine operation lhs rhs third guest) [
      | constants e same ↦ (_, (_, same))
      | reads e same ↦ (_, (_, same))
      | writes e same ↦ (_, (_, same))
      | calculates e n sums same ↦ (_, (_, same))
      | others a b c d same ↦ (_, (_, same))
    ]

AllBuilt-before :
    (next : ℕ) (before after : List Operation)
    → AllBuilt next (before ++ after)
    → AllBuilt next before
AllBuilt-before next [] after built = tt
AllBuilt-before next (operation ∷ before) after built =
    (built.0, AllBuilt-before (next_after next operation) before after built.1)

-- Every chain of replacements ends at once.
abbrev IsEnded : Forwarding → Type 0
IsEnded st = (v : ℕ) → st.replacements (st.replacements v) ≡ st.replacements v

Related-IsEnded :
    (next : ℕ) (original staying registers : ℕ → ℕ) (st : Forwarding)
    → Related next original staying registers st
    → IsEnded st
Related-IsEnded next original staying registers st r v = elim (Bool-cases (ltb v next)) [
  | inl below ↦ r.idempotent v (ground arith)
  | inr above ↦ ap st.replacements (r.fresh v (ground arith)).0
]

module _ (steps : ℕ) (across_loads across_stores : Bool) where
  forward_all-IsEnded :
      (operations : List Operation) (next : ℕ) (original staying : ℕ → ℕ) (st : Forwarding)
      (guest : Guest ℕ)
      → Related next original staying guest.registers st
      → AllBuilt next operations
      → IsEnded (forward_all (suc steps) across_loads across_stores st operations)
  unfolding forward_all forward
  forward_all-IsEnded [] next original staying st guest r built =
      Related-IsEnded next original staying guest.registers st r
  forward_all-IsEnded (operation ∷ operations) next original staying st guest r built =
      elim (Option-cases (
        replacement (suc steps) across_loads across_stores st
          (canonical (suc steps) st.replacements operation))) [
            | inr (s, e) ↦
                let g : Goes staying_machine steps next across_loads across_stores original staying
                    st guest r (canonical (suc steps) st.replacements operation)
                    (operand original operation.third) s =
                  replacement-Goes staying_machine steps next across_loads across_stores original
                    staying st guest r (canonical (suc steps) st.replacements operation)
                    (operand original operation.third)
                    (is_next staying_machine steps across_loads across_stores next original staying
                      st guest r operation built.0)
                    s e in
                rw (e, forward_all, forward)
                  (forward_all-IsEnded operations (next_after next operation)
                    (define original operation.result g.value) staying _ guest
                    (gone-Related staying_machine steps across_loads across_stores next original
                      staying st guest r operation built.0 s g)
                    built.1)
            | inl e ↦
                let (after, (value, out)) =
                  goes_on operation (operand original operation.lhs)
                    (operand original operation.rhs) (operand original operation.third) guest in
                rw (e, forward_all, forward)
                  (forward_all-IsEnded operations (next_after next operation)
                    (define original operation.result value) (define staying operation.result value)
                    _ after
                    (stayed-Related staying_machine steps across_loads across_stores next original
                      staying st guest r operation built.0 after value out)
                    built.1)
          ]

-- In a block that calls of Builder reach, each with values that earlier calls returned, and that has fewer
-- than 2^32 operations, wherever the pass has come, the search for the replacement of any value ends at one that
-- stands for itself, within as many rounds as the block has values and one more.
pub resolve-IsEnded :
    (start : ℕ) (block : Block) (across_loads across_stores : Bool) (before after : List Operation)
    (value : ℕ)
    → Reached start block
    → length block.operations < 2 ^ 32
    → block.operations ≡ before ++ after
    → let st = forward_all (suc block.value_count) across_loads across_stores initial before in
      let found = resolve (suc block.value_count) st.replacements value in
      st.replacements found ≡ found
resolve-IsEnded start block across_loads across_stores before after value reached small split =
    let all : AllBuilt 0 (before ++ after) =
      subst (AllBuilt 0) split (Reached-AllBuilt start block reached small) in
    let ended : IsEnded
        (forward_all (suc block.value_count) across_loads across_stores initial before) =
      forward_all-IsEnded block.value_count across_loads across_stores before 0 (λ v. 0) (λ v. 0)
        initial (record { registers = λ v. 0; world = 0 }) (initial-Related (λ v. 0) (λ v. 0))
        (AllBuilt-before 0 before after all) in
    rw
      (resolve-fixed block.value_count
        (forward_all (suc block.value_count) across_loads across_stores initial before).replacements
        value (ended value))
      (ended value)
