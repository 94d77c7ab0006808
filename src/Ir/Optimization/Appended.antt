-- ===== src/Ir/Optimization/Appended.antt =====
-- The operations that the pass of src/ir/Optimization.cpp appends, as a list.
use rosa.Prelude.{
  ℕ, suc, ◌≡◌, refl, sym, ap, ◌∙◌, inl, inr, Bool, none, some, List, [], ◌∷◌, ◌++◌, Bool-cases,
  Option-cases,
}
use mathlib.Core.List.{append_assoc, append-nil}
use rosa.Ir.{Operation, has}
use rosa.Ir.Optimization.{
  Forwarding, Replacement, canonical, replacement, replace, keep, forward, forward_all,
}

module _ (steps : ℕ) (across_loads across_stores : Bool) where
  abbrev canonical_of : Forwarding → Operation → Operation
  canonical_of st operation = canonical (suc steps) st.replacements operation

  -- The operations that the rest of the loop appends.
  unfoldable pub appended : Forwarding → List Operation → List Operation
  unfolding canonical replacement replace keep
  appended st [] = []
  appended st (operation ∷ operations) =
      elim (replacement (suc steps) across_loads across_stores st (canonical_of st operation)) [
        | some s ↦
            appended
              (replace (suc steps) across_loads across_stores st (canonical_of st operation) s)
              operations
        | none ↦
            canonical_of st operation
            ∷ appended (keep (suc steps) across_loads across_stores st (canonical_of st operation))
                operations
      ]

  replace-operations :
      (st : Forwarding) (o : Operation) (s : Replacement)
      → (replace (suc steps) across_loads across_stores st o s).operations ≡ st.operations
  unfolding replace
  replace-operations st o s = refl

  keep-operations :
      (st : Forwarding) (o : Operation)
      → (keep (suc steps) across_loads across_stores st o).operations ≡ st.operations ++ o ∷ []
  unfolding keep
  keep-operations st o = elim (Bool-cases (has o.result)) [
    | inl present ↦ rw (present, keep) refl
    | inr absent ↦ rw (absent, keep) refl
  ]

  pub forward_all-appended :
      (st : Forwarding) (operations : List Operation)
      → (forward_all (suc steps) across_loads across_stores st operations).operations
        ≡ st.operations ++ appended st operations
  unfolding forward_all forward appended
  forward_all-appended st [] = sym (append-nil st.operations)
  forward_all-appended st (operation ∷ operations) =
      elim (Option-cases
        (replacement (suc steps) across_loads across_stores st (canonical_of st operation))) [
          | inr (s, e) ↦
              rw (e, forward_all, forward, appended)
                (forward_all-appended
                    (replace (suc steps) across_loads across_stores st (canonical_of st operation)
                      s)
                    operations
                  ∙ ap
                      (λ (xs : List Operation).
                        xs
                        ++ appended
                            (replace (suc steps) across_loads across_stores st
                              (canonical_of st operation) s)
                            operations)
                      (replace-operations st (canonical_of st operation) s))
          | inl e ↦
              rw (e, forward_all, forward, appended)
                (forward_all-appended
                    (keep (suc steps) across_loads across_stores st (canonical_of st operation))
                    operations
                  ∙ ap
                      (λ (xs : List Operation).
                        xs
                        ++ appended
                            (keep (suc steps) across_loads across_stores st
                              (canonical_of st operation))
                            operations)
                      (keep-operations st (canonical_of st operation))
                  ∙ append_assoc st.operations (canonical_of st operation ∷ []) _)
        ]
