-- ===== src/Ir/Optimization/Stays.antt =====
-- An operation that stays keeps the two runs of a block together (src/ir/Optimization.cpp).
use rosa.Prelude.{
  both, either, ==_iff, ℕ, suc, ◌^◌, ◌≤◌, ◌<◌, ◌≡◌, refl, sym, ap, ◌∙◌, subst, inl, inr, Bool, true,
  false, ◌&&◌, ◌||◌, Option, none, some, arith, ◌==◌, Bool-cases,
}
use rosa.Flags.Select.{i32}
use rosa.Ir.{Opcode, Operation, is, has_width, one_of, has, the}
use rosa.Ir.Optimization.{
  put, Known, Forwarding, register_count, keep, gives_zero, gives_zero_extended, next_known,
}
use rosa.Ir.Optimization.Invariant.{IsUsed, next_after, IsKnown, IsSum, Related}
use rosa.Ir.Optimization.Values.{sum-later}
use rosa.Ir.Optimization.Steps.{put_at, kept-Related, passed-Related, agree}
use rosa.Ir.Optimization.NextKnown.{next_known-IsKnown}
use rosa.Ir.Meaning.{Guest, Machine, execute, continues, operand, define}
use rosa.Ir.Meaning.Facts.{zero_value, condition_value, fitting_value, sum_result, fitting_opcodes}

pub define-put :
    (values : ℕ → ℕ) (o : Option ℕ) (next value : ℕ)
    → has o ≡ true
    → the o ≡ next
    → define values o value ≡ put values next value
unfolding define has the
define-put values none next value h e = absurd (cc)
define-put values (some v) next value h e = ap (λ (n : ℕ). put values n value) e

define_none :
    (values : ℕ → ℕ) (o : Option ℕ) (value : ℕ) → has o ≡ false → define values o value ≡ values
unfolding define has
define_none values none value h = refl
define_none values (some v) value h = absurd (cc)

module _ {ℓ} {World : Type ℓ} (machine : Machine World) (steps next : ℕ)
    (across_loads across_stores : Bool) (original staying : ℕ → ℕ) (st : Forwarding)
    (guest after : Guest World) (r : Related next original staying guest.registers st)
    (operation : Operation)
    (canonical : has operation.lhs ≡ true
      → (the operation.lhs < next) × (st.replacements (the operation.lhs) ≡ the operation.lhs))
    (used : IsUsed next operation.rhs)
    (built : has operation.result ≡ true → the operation.result ≡ next)
    (complete : is Opcode.write_guest_reg operation ≡ true → has operation.guest_register ≡ true)
    (third : Option ℕ) (value : ℕ)
    (goes_on : execute machine operation
        (operand original operation.lhs)
        (operand original operation.rhs)
        third
        guest
      ≡ continues after value) where
  nil_value : gives_zero (suc steps) across_loads across_stores st operation ≡ true → value ≡ 0
  unfolding gives_zero
  nil_value h =
      let (c, z) = both (is Opcode.constant operation) (operation.immediate == 0) h in
      zero_value machine operation _ _ third guest after value goes_on c ((==_iff _ _).0 z)

  low_value :
      gives_zero_extended (suc steps) across_loads across_stores st operation ≡ true
      → value < 2 ^ 32
  unfolding gives_zero_extended
  low_value h =
      let z : Bool = gives_zero (suc steps) across_loads across_stores st operation in
      let c : Bool = is Opcode.evaluate_condition operation in
      elim (either (z || c) (has_width i32 operation && one_of fitting_opcodes operation) h) [
        | inl front ↦ elim (either z c front) [
          | inl nil ↦ omega (arith, nil_value nil)
          | inr condition ↦ omega (
            arith,
            condition_value machine operation _ _ third guest after value goes_on condition,
          )
        ]
        | inr fits ↦
            let (w, o) = both (has_width i32 operation) (one_of fitting_opcodes operation) fits in
            fitting_value machine operation _ _ third guest after value goes_on w o
      ]

  abbrev Kept : Type 0
  Kept =
      Related (next_after next operation) (define original operation.result value)
        (define staying operation.result value) after.registers
        (keep (suc steps) across_loads across_stores st operation)

  keep-IsSum : has operation.result ≡ true → IsSum (suc next) (put original next value) operation
  keep-IsSum present =
      let at : the operation.result ≡ next = built present in
      let left : IsUsed next operation.lhs = λ h. (canonical h).0 in
      let grows : next ≤ suc next = omega arith in
      record {
        lhs = λ h. omega (arith, left h);
        rhs = λ h. omega (arith, used h);
        result = λ h. omega (arith, at);
        sum = λ h adds.
            ap (put original next value) at
            ∙ put_at original next value
            ∙ sum_result machine operation _ _ third guest after value goes_on adds
            ∙ sum-later next (suc next) original (put original next value) grows
                (agree next value original staying guest.registers st r) operation operation.lhs
                operation.rhs left used;
      }

  abbrev known_after : ℕ → Known
  known_after = next_known (suc steps) across_loads across_stores st operation

  -- What is known of the registers, for the next value and the values as they come out of a case.
  keep-IsKnown :
      (later_next : ℕ) (later : ℕ → ℕ)
      → next_after next operation ≡ later_next
      → define original operation.result value ≡ later
      → (i : ℕ) → i < register_count
      → IsKnown later_next later (after.registers i) (known_after i)
  keep-IsKnown later_next later n d i small =
      subst (λ (m : ℕ). IsKnown m later (after.registers i) (known_after i)) n
        (subst
          (λ (f : ℕ → ℕ). IsKnown (next_after next operation) f (after.registers i) (known_after i))
          d
          (next_known-IsKnown machine steps next across_loads across_stores original staying st
            guest after r operation canonical built complete (operand original operation.rhs) third
            value goes_on i small))

  kept_in :
      (later_next : ℕ) (later staying_later : ℕ → ℕ) (st_later : Forwarding)
      → next_after next operation ≡ later_next
      → define original operation.result value ≡ later
      → define staying operation.result value ≡ staying_later
      → keep (suc steps) across_loads across_stores st operation ≡ st_later
      → Related later_next later staying_later after.registers st_later
      → Kept
  kept_in later_next later staying_later st_later n d e k related =
      subst
        (λ (m : ℕ).
          Related m (define original operation.result value) (define staying operation.result value)
            after.registers (keep (suc steps) across_loads across_stores st operation))
        (sym n)
        (subst
          (λ (f : ℕ → ℕ).
            Related later_next f (define staying operation.result value) after.registers
              (keep (suc steps) across_loads across_stores st operation))
          (sym d)
          (subst
            (λ (f : ℕ → ℕ).
              Related later_next later f after.registers
                (keep (suc steps) across_loads across_stores st operation))
            (sym e)
            (subst (λ (s : Forwarding). Related later_next later staying_later after.registers s)
              (sym k) related)))

  with_value : has operation.result ≡ true → Kept
  unfolding keep
  with_value present =
      let at : the operation.result ≡ next = built present in
      let is_next : next_after next operation ≡ suc next = rw present refl in
      let is_original = define-put original operation.result next value present at in
      kept_in (suc next) (put original next value) (put staying next value) _ is_next is_original
        (define-put staying operation.result next value present at) (rw (present, at, keep) refl)
        (kept-Related next value original staying guest.registers st r known_after
          (gives_zero_extended (suc steps) across_loads across_stores st operation)
          (gives_zero (suc steps) across_loads across_stores st operation)
          (is Opcode.evaluate_condition operation) operation after.registers low_value nil_value
          (condition_value machine operation _ _ third guest after value goes_on)
          (keep-IsKnown (suc next) (put original next value) is_next is_original)
          (keep-IsSum present))

  without_value : has operation.result ≡ false → Kept
  unfolding keep
  without_value absent =
      let is_next : next_after next operation ≡ next = rw absent refl in
      let is_original = define_none original operation.result value absent in
      kept_in next original staying _ is_next is_original
        (define_none staying operation.result value absent) (rw (absent, keep) refl)
        (passed-Related next 0 original staying guest.registers st r known_after operation
          after.registers (keep-IsKnown next original is_next is_original)
          (record {
            lhs = λ h. (canonical h).0;
            rhs = used;
            result = λ h. absurd (cc);
            sum = λ h adds. absurd (cc);
          }))

  pub keep-Related : Kept
  keep-Related = elim (Bool-cases (has operation.result)) [
    | inl present ↦ with_value present
    | inr absent ↦ without_value absent
  ]
