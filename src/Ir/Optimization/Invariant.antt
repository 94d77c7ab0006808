-- ===== src/Ir/Optimization/Invariant.antt =====
-- The state of the pass of src/ir/Optimization.cpp between two operations, beside two runs of the block: with
-- the values of the original operations, and with those of the operations that stay.
use rosa.Prelude.{
  ℕ, zero, suc, ◌+◌, ◌^◌, ◌≤◌, ◌<◌, ◌≡◌, refl, ap, ◌∙◌, inl, inr, true, false, Option, List, [],
  ◌∷◌, arith, ◌==◌, if◌then◌else◌, Bool-cases, All, u32,
}
use rosa.Ir.{Opcode, Operation, is, has, the}
use rosa.Ir.Optimization.{Known, Forwarding, register_count, resolve}
use rosa.Ir.Meaning.{fit, operand}

-- What Builder makes of an operation: its operands are defined, and its result is the next value. A write has
-- a register, which verify demands.
abbrev pub IsUsed : (next : ℕ) → Option ℕ → Type 0
IsUsed next operand = has operand ≡ true → the operand < next

pub record IsBuilt (next : ℕ) (operation : Operation) : Type 0 where
  pub lhs : IsUsed next operation.lhs
  pub rhs : IsUsed next operation.rhs
  pub third : IsUsed next operation.third
  pub result : has operation.result ≡ true → the operation.result ≡ next
  pub register : is Opcode.write_guest_reg operation ≡ true → has operation.guest_register ≡ true

-- The value that comes next after an operation.
abbrev pub next_after : (next : ℕ) → Operation → ℕ
next_after next operation = if has operation.result then suc next else next

abbrev pub AllBuilt : (next : ℕ) → List Operation → Type 0
AllBuilt next [] = Unit
AllBuilt next (operation ∷ operations) =
    IsBuilt next operation × AllBuilt (next_after next operation) operations

-- What is known of a register that holds `held` is so.
pub record IsKnown (next : ℕ) (values : ℕ → ℕ) (held : ℕ) (known : Known) : Type 0 where
  pub defined : has known.value ≡ true → the known.value < next
  pub full : has known.value ≡ true → known.is_full ≡ true → values (the known.value) ≡ held
  pub zero_extended :
      has known.value ≡ true → known.is_zero_extended ≡ true → values (the known.value) ≡ u32 held
  pub is_nil : known.is_zero ≡ true → held ≡ 0

-- An addition that stays holds its sum.
pub record IsSum (next : ℕ) (values : ℕ → ℕ) (operation : Operation) : Type 0 where
  pub lhs : IsUsed next operation.lhs
  pub rhs : IsUsed next operation.rhs
  pub result : IsUsed next operation.result
  pub sum :
      has operation.result ≡ true
      → is Opcode.add operation ≡ true
      → values (the operation.result)
        ≡ fit operation (the (operand values operation.lhs) + the (operand values operation.rhs))

pub record Related (next : ℕ) (original staying : ℕ → ℕ) (registers : ℕ → ℕ) (st : Forwarding)
    : Type 0 where
  pub below : (v : ℕ) → v < next → st.replacements v < next
  pub idempotent : (v : ℕ) → v < next → st.replacements (st.replacements v) ≡ st.replacements v
  pub same : (v : ℕ) → v < next → staying (st.replacements v) ≡ original v
  pub fresh : (v : ℕ) → next ≤ v → (st.replacements v ≡ v) × (st.condition_values v ≡ false)
  pub zero_extended : (v : ℕ) → v < next → st.zero_extended_values v ≡ true → original v < 2 ^ 32
  pub zeros : (v : ℕ) → v < next → st.zero_values v ≡ true → original v ≡ 0
  pub conditions : (v : ℕ) → v < next → st.condition_values v ≡ true → original v ≤ 1
  pub registers_known :
      (i : ℕ) → i < register_count → IsKnown next original (registers i) (st.known i)
  pub sums : All (IsSum next original) st.operations

-- The chain of replacements has at most one step.
pub resolve-fixed :
    (steps : ℕ) (replacements : ℕ → ℕ) (v : ℕ)
    → replacements (replacements v) ≡ replacements v
    → resolve (suc steps) replacements v ≡ replacements v
unfolding resolve
resolve-fixed zero replacements v e = elim (Bool-cases (replacements v == v)) [
  | inl same ↦ rw (same, resolve) (ground arith)
  | inr other ↦ rw (other, resolve) refl
]
resolve-fixed (suc steps) replacements v e = elim (Bool-cases (replacements v == v)) [
  | inl same ↦ rw (same, resolve) (ground arith)
  | inr other ↦
      rw (other, resolve)
        (resolve-fixed steps replacements (replacements v) (ap replacements e) ∙ e)
]
