-- ===== src/Ir/Optimization/Values.antt =====
-- Values under their replacements, and facts on values that stay true as more are defined
-- (src/ir/Optimization.cpp).
use rosa.Prelude.{
  ℕ, suc, ◌+◌, ◌≤◌, ◌<◌, ◌≡◌, refl, sym, ap, ◌∙◌, true, false, Option, none, some, arith, ◌==◌,
}
use rosa.Ir.{Operation, has, the}
use rosa.Ir.Optimization.{Known, Forwarding, resolve, canonicalize}
use rosa.Ir.Optimization.Invariant.{IsUsed, next_after, IsKnown, IsSum, Related, resolve-fixed}
use rosa.Ir.Meaning.{fit, operand, define}

pub define_below :
    (next v x : ℕ) (values : ℕ → ℕ) (result : Option ℕ)
    → (has result ≡ true → the result ≡ next)
    → v < next
    → define values result x v ≡ values v
unfolding define has the
define_below next v x values none h l = refl
define_below next v x values (some r) h l =
    let apart : (v == r) ≡ false = ground (arith, h refl) in rw apart refl

pub next_after_le : (next : ℕ) (operation : Operation) → next ≤ next_after next operation
next_after_le next operation = ground arith

-- Later values agree with the earlier ones where these are defined.
module _ (next later_next : ℕ) (values later : ℕ → ℕ) (grows : next ≤ later_next)
    (agree : (v : ℕ) → v < next → later v ≡ values v) where
  pub IsUsed-later : (o : Option ℕ) → IsUsed next o → IsUsed later_next o
  IsUsed-later o u h = omega (arith, u h, grows)

  operand-later : (o : Option ℕ) → IsUsed next o → operand later o ≡ operand values o
  unfolding operand has the
  operand-later none u = refl
  operand-later (some v) u = ap some (agree v (u refl))

  pub IsKnown-later :
      (held : ℕ) (known : Known)
      → IsKnown next values held known
      → IsKnown later_next later held known
  IsKnown-later held known k = record {
    defined = λ h. omega (arith, k.defined h, grows);
    full = λ h f. agree (the known.value) (k.defined h) ∙ k.full h f;
    zero_extended = λ h z. agree (the known.value) (k.defined h) ∙ k.zero_extended h z;
    is_nil = k.is_nil;
  }

  -- The sum of two operands.
  pub sum-later :
      (o : Operation) (lhs rhs : Option ℕ)
      → IsUsed next lhs
      → IsUsed next rhs
      → fit o (the (operand values lhs) + the (operand values rhs))
        ≡ fit o (the (operand later lhs) + the (operand later rhs))
  sum-later o lhs rhs l r = sym (
      ap (λ (p : Option ℕ). fit o (the p + the (operand later rhs))) (operand-later lhs l)
      ∙ ap (λ (p : Option ℕ). fit o (the (operand values lhs) + the p)) (operand-later rhs r))

  pub IsSum-later : (o : Operation) → IsSum next values o → IsSum later_next later o
  IsSum-later o s = record {
    lhs = IsUsed-later o.lhs s.lhs;
    rhs = IsUsed-later o.rhs s.rhs;
    result = IsUsed-later o.result s.result;
    sum =
        λ h a. agree (the o.result) (s.result h) ∙ s.sum h a ∙ sum-later o o.lhs o.rhs s.lhs s.rhs;
  }

module _ (steps next : ℕ) (original staying registers : ℕ → ℕ) (st : Forwarding)
    (r : Related next original staying registers st) where
  -- A replacement has the value of what it replaces.
  pub replaced_value : (v : ℕ) → v < next → original (st.replacements v) ≡ original v
  replaced_value v l =
      sym (r.same (st.replacements v) (r.below v l)) ∙ ap staying (r.idempotent v l) ∙ r.same v l

  pub resolved : (v : ℕ) → v < next → resolve (suc steps) st.replacements v ≡ st.replacements v
  resolved v l = resolve-fixed steps st.replacements v (r.idempotent v l)

  -- A canonical operand: it is defined, is its own replacement, and has the operand's value in both runs.
  pub canonical_operand :
      (o : Option ℕ)
      → IsUsed next o
      → (operand staying (canonicalize (suc steps) st.replacements o) ≡ operand original o)
        × (operand original (canonicalize (suc steps) st.replacements o) ≡ operand original o)
        × IsUsed next (canonicalize (suc steps) st.replacements o)
  unfolding operand canonicalize has the
  canonical_operand none u = (refl, refl, u)
  canonical_operand (some v) u =
      let l : v < next = u refl in
      rw (resolved v l) (ap some (r.same v l), ap some (replaced_value v l), λ h. r.below v l)

  pub canonical_fixed :
      (o : Option ℕ)
      → IsUsed next o
      → has (canonicalize (suc steps) st.replacements o) ≡ true
      → st.replacements (the (canonicalize (suc steps) st.replacements o))
        ≡ the (canonicalize (suc steps) st.replacements o)
  unfolding canonicalize has the
  canonical_fixed none u h = absurd (cc)
  canonical_fixed (some v) u h = let l : v < next = u refl in rw (resolved v l) (r.idempotent v l)
