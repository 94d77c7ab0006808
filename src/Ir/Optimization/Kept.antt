-- ===== src/Ir/Optimization/Kept.antt =====
-- An operation of a block before and after its values are replaced (src/ir/Optimization.cpp).
use rosa.Prelude.{ℕ, suc, ◌<◌, ◌≡◌, refl, sym, ap, ◌∙◌, subst, Bool, true, Option}
use rosa.Ir.{Opcode, Operation, is, has_width, has, the}
use rosa.Ir.Optimization.{put, Forwarding, Replacement, canonical, replace, keep}
use rosa.Ir.Optimization.Invariant.{IsUsed, IsBuilt, next_after, Related}
use rosa.Ir.Optimization.Values.{canonical_operand, canonical_fixed}
use rosa.Ir.Optimization.Steps.{replaced-Related, with_replacement}
use rosa.Ir.Optimization.Replacements.{Goes}
use rosa.Ir.Optimization.Stays.{keep-Related, define-put}
use rosa.Ir.Meaning.{
  Guest, Machine, Outcome, execute, continues, operand, define, read_value, arithmetic,
}

module _ {ℓ} {World : Type ℓ} (machine : Machine World) (steps : ℕ)
    (across_loads across_stores : Bool) where
  -- The values' numbers do not matter to an operation.
  execute_canonical :
      (replacements : ℕ → ℕ) (operation : Operation) (lhs rhs third : Option ℕ)
      (guest : Guest World)
      → execute machine (canonical (suc steps) replacements operation) lhs rhs third guest
        ≡ execute machine operation lhs rhs third guest
  unfolding execute canonical is has_width read_value arithmetic
  execute_canonical replacements operation lhs rhs third guest = refl

  module _ (next : ℕ) (original staying : ℕ → ℕ) (st : Forwarding) (guest : Guest World)
      (r : Related next original staying guest.registers st) (operation : Operation)
      (built : IsBuilt next operation) where
    abbrev kept_operation : Operation
    kept_operation = canonical (suc steps) st.replacements operation

    canonical_lhs :
        has kept_operation.lhs ≡ true
        → (the kept_operation.lhs < next)
          × (st.replacements (the kept_operation.lhs) ≡ the kept_operation.lhs)
    unfolding canonical
    canonical_lhs h =
        let (o, p, used) =
          canonical_operand steps next original staying guest.registers st r operation.lhs
            built.lhs in
        (
          used h,
          canonical_fixed steps next original staying guest.registers st r operation.lhs built.lhs
              h,
        )

    canonical_rhs : IsUsed next kept_operation.rhs
    unfolding canonical
    canonical_rhs =
        (canonical_operand steps next original staying guest.registers st r operation.rhs
          built.rhs).2

    same_register :
        is Opcode.write_guest_reg kept_operation ≡ true → has kept_operation.guest_register ≡ true
    unfolding canonical is
    same_register h = built.register h

    same_result : kept_operation.result ≡ operation.result
    unfolding canonical
    same_result = refl

    pub is_next : has kept_operation.result ≡ true → the kept_operation.result ≡ next
    unfolding canonical
    is_next h = built.result h

    abbrev third : Option ℕ
    third = operand original operation.third

    -- The operation, with the original operands' values.
    abbrev pub original_outcome : Outcome World
    original_outcome =
        execute machine operation (operand original operation.lhs) (operand original operation.rhs)
          third guest

    -- The canonical operation gives the same in either run.
    pub canonical_original :
        execute machine kept_operation
          (operand original kept_operation.lhs)
          (operand original kept_operation.rhs)
          third
          guest
        ≡ execute machine operation
            (operand original operation.lhs)
            (operand original operation.rhs)
            third
            guest
    unfolding canonical
    canonical_original =
        execute_canonical st.replacements operation _ _ third guest
        ∙ ap
            (λ (o : Option ℕ).
              execute machine operation o (operand original kept_operation.rhs) third guest)
            (canonical_operand steps next original staying guest.registers st r operation.lhs
              built.lhs).1
        ∙ ap
            (λ (o : Option ℕ).
              execute machine operation (operand original operation.lhs) o third guest)
            (canonical_operand steps next original staying guest.registers st r operation.rhs
              built.rhs).1

    pub canonical_staying :
        execute machine kept_operation
          (operand staying kept_operation.lhs)
          (operand staying kept_operation.rhs)
          (operand staying kept_operation.third)
          guest
        ≡ execute machine operation
            (operand original operation.lhs)
            (operand original operation.rhs)
            third
            guest
    unfolding canonical
    canonical_staying =
        execute_canonical st.replacements operation _ _ _ guest
        ∙ ap
            (λ (o : Option ℕ).
              execute machine operation o (operand staying kept_operation.rhs)
                (operand staying kept_operation.third) guest)
            (canonical_operand steps next original staying guest.registers st r operation.lhs
              built.lhs).0
        ∙ ap
            (λ (o : Option ℕ).
              execute machine operation (operand original operation.lhs) o
                (operand staying kept_operation.third) guest)
            (canonical_operand steps next original staying guest.registers st r operation.rhs
              built.rhs).0
        ∙ ap
            (λ (o : Option ℕ).
              execute machine operation (operand original operation.lhs)
                (operand original operation.rhs) o guest)
            (canonical_operand steps next original staying guest.registers st r operation.third
              built.third).0

    -- After an operation that goes.
    pub gone-Related :
        (s : Replacement)
        → (g : Goes machine steps next across_loads across_stores original staying st guest r
            kept_operation third s)
        → Related
            (next_after next operation)
            (define original operation.result g.value)
            staying
            guest.registers
            (replace (suc steps) across_loads across_stores st kept_operation s)
    unfolding replace canonical
    gone-Related s g =
        let present : has operation.result ≡ true = g.present in
        let at : the operation.result ≡ next = built.result present in
        let is_next : next_after next operation ≡ suc next = rw present refl in
        let replaced : replace (suc steps) across_loads across_stores st kept_operation s
            ≡ with_replacement next g.value original staying guest.registers st r s =
          rw (at, replace) refl in
        subst
          (λ (m : ℕ).
            Related m (define original operation.result g.value) staying guest.registers
              (replace (suc steps) across_loads across_stores st kept_operation s))
          (sym is_next)
          (subst
            (λ (f : ℕ → ℕ).
              Related (suc next) f staying guest.registers
                (replace (suc steps) across_loads across_stores st kept_operation s))
            (sym (define-put original operation.result next g.value present at))
            (subst
              (λ (t : Forwarding).
                Related (suc next) (put original next g.value) staying guest.registers t)
              (sym replaced)
              (replaced-Related next g.value original staying guest.registers st r s g.stands)))

    -- After one that stays.
    pub stayed-Related :
        (after : Guest World) (value : ℕ)
        → execute machine operation
            (operand original operation.lhs)
            (operand original operation.rhs)
            third
            guest
          ≡ continues after value
        → Related
            (next_after next operation)
            (define original operation.result value)
            (define staying operation.result value)
            after.registers
            (keep (suc steps) across_loads across_stores st kept_operation)
    unfolding canonical
    stayed-Related after value e =
        keep-Related machine steps next across_loads across_stores original staying st guest after r
          kept_operation canonical_lhs canonical_rhs is_next same_register third value
          (canonical_original ∙ e)
