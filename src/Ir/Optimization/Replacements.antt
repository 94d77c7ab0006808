-- ===== src/Ir/Optimization/Replacements.antt =====
-- The operations that go: repeated additions and reads of known registers (src/ir/Optimization.cpp).
use rosa.Prelude.{
  both, ==_iff, ℕ, suc, ◌+◌, ◌<◌, ◌≡◌, refl, sym, ap, ◌∙◌, subst, inl, inr, Bool, true, false, ◌&&◌,
  ◌||◌, Option, none, some, List, [], ◌∷◌, arith, ltb, ◌==◌, if◌then◌else◌, Bool-cases,
  Option-cases, All, u32, u64,
}
use mathlib.Core.Option.{some-injective}
use rosa.Flags.Select.{i32, i64}
use rosa.Ir.{Opcode, Operation, is, has_width, has, the, bits, number, is_same}
use rosa.Ir.Optimization.{
  Known, Forwarding, Replacement, register_count, reads_register, index, repeated, forwarded,
  replacement, find_equivalent, is_equivalent,
}
use rosa.Ir.Optimization.Invariant.{IsKnown, IsSum, Related}
use rosa.Ir.Optimization.Values.{resolved, replaced_value}
use rosa.Ir.Optimization.Steps.{IsReplacement}
use rosa.Ir.Meaning.{Guest, Machine, execute, continues, fit, operand, read_value}
use rosa.Ir.Meaning.Facts.{execute-read, execute-add}

same_option : (a b : Option ℕ) → is_same a b ≡ true → a ≡ b
unfolding is_same
same_option none none h = refl
same_option none (some b) h = absurd (cc)
same_option (some a) none h = absurd (cc)
same_option (some a) (some b) h = ap some ((==_iff a b).0 h)

fit_width : (a b : Operation) (n : ℕ) → bits a.width ≡ bits b.width → fit a n ≡ fit b n
unfolding has_width
fit_width a b n w = ap (λ (size : ℕ). if size == 32 then u32 n else u64 n) w

-- An equivalent addition that stays, and what it holds.
pub record Equivalent (next : ℕ) (values : ℕ → ℕ) (operation : Operation) (result : ℕ)
    : Type 0 where
  pub defined : result < next
  pub sum :
      values result
      ≡ fit operation (the (operand values operation.lhs) + the (operand values operation.rhs))

candidate-Equivalent :
    (next : ℕ) (values : ℕ → ℕ) (operation candidate : Operation) (result : ℕ)
    → is Opcode.add operation ≡ true
    → IsSum next values candidate
    → is_equivalent operation candidate ≡ true
    → candidate.result ≡ some result
    → Equivalent next values operation result
unfolding is_equivalent has the is number
candidate-Equivalent next values operation candidate result adds s h e =
    let (front, immediate) =
      both
        (has candidate.result
          && is operation.opcode candidate
          && bits candidate.width == bits operation.width
          && is_same candidate.lhs operation.lhs
          && is_same candidate.rhs operation.rhs
          && is_same candidate.third operation.third)
        _ h in
    let (front, third) =
      both
        (has candidate.result
          && is operation.opcode candidate
          && bits candidate.width == bits operation.width
          && is_same candidate.lhs operation.lhs
          && is_same candidate.rhs operation.rhs)
        _ front in
    let (front, rhs) =
      both
        (has candidate.result
          && is operation.opcode candidate
          && bits candidate.width == bits operation.width
          && is_same candidate.lhs operation.lhs)
        _ front in
    let (front, lhs) =
      both
        (has candidate.result
          && is operation.opcode candidate
          && bits candidate.width == bits operation.width)
        _ front in
    let (front, width) = both (has candidate.result && is operation.opcode candidate) _ front in
    let (present, opcode) = both (has candidate.result) _ front in
    let l : candidate.lhs ≡ operation.lhs = same_option candidate.lhs operation.lhs lhs in
    let r : candidate.rhs ≡ operation.rhs = same_option candidate.rhs operation.rhs rhs in
    let w : bits candidate.width ≡ bits operation.width = (==_iff _ _).0 width in
    let at : the candidate.result ≡ result = ap the e in
    record {
      defined = omega (arith, s.result present, at);
      sum =
          ap values (sym at)
          ∙ s.sum present (ground arith)
          ∙ fit_width candidate operation _ w
          ∙ ap
              (λ (o : Option ℕ).
                fit operation (the (operand values o) + the (operand values candidate.rhs)))
              l
          ∙ ap
              (λ (o : Option ℕ).
                fit operation (the (operand values operation.lhs) + the (operand values o)))
              r;
    }

find_equivalent-Equivalent :
    (next : ℕ) (values : ℕ → ℕ) (operation : Operation) (candidates : List Operation) (result : ℕ)
    → is Opcode.add operation ≡ true
    → All (IsSum next values) candidates
    → find_equivalent operation candidates ≡ some result
    → Equivalent next values operation result
unfolding find_equivalent
find_equivalent-Equivalent next values operation [] result adds s h = absurd (cc)
find_equivalent-Equivalent next values operation (candidate ∷ candidates) result adds s h =
    elim (Bool-cases (is_equivalent operation candidate)) [
      | inl e ↦
          candidate-Equivalent next values operation candidate result adds s.0 e
            (rw (e, find_equivalent) at h)
      | inr e ↦
          find_equivalent-Equivalent next values operation candidates result adds s.1
            (rw (e, find_equivalent) at h)
    ]

module _ {ℓ} {World : Type ℓ} (machine : Machine World) (steps next : ℕ)
    (across_loads across_stores : Bool) (original staying : ℕ → ℕ) (st : Forwarding)
    (guest : Guest World) (r : Related next original staying guest.registers st)
    (operation : Operation) (third : Option ℕ) where
  -- The operation changes nothing, has a result, and its value is that of the source.
  pub record Goes (s : Replacement) : Type ℓ where
    pub value : ℕ
    pub present : has operation.result ≡ true
    pub runs :
        execute machine operation
          (operand original operation.lhs)
          (operand original operation.rhs)
          third
          guest
        ≡ continues guest value
    pub stands : IsReplacement next original st s value

  repeated-Goes :
      (s : Replacement)
      → repeated (suc steps) across_loads across_stores st operation ≡ some s
      → Goes s
  unfolding repeated
  repeated-Goes s h =
      elim (Bool-cases (across_loads && has operation.result && is Opcode.add operation)) [
        | inr no_addition ↦ absurd (ground arith)
        | inl guard ↦
            let (front, adds) = both (across_loads && has operation.result) _ guard in
            let (loads, present) = both across_loads _ front in
            elim (Option-cases (find_equivalent operation st.operations)) [
              | inl nothing ↦ absurd (ground arith)
              | inr (result, found) ↦
                  let q : Equivalent next original operation result =
                    find_equivalent-Equivalent next original operation st.operations result adds
                      r.sums found in
                  let source : ℕ = st.replacements result in
                  let l : source < next = r.below result q.defined in
                  let value : original source ≡ original result =
                    replaced_value steps next original staying guest.registers st r result
                      q.defined in
                  let is_s : record {
                    source = source;
                    is_zero_extended = st.zero_extended_values source;
                    is_zero = st.zero_values source;
                    is_condition = st.condition_values source;
                  }
                      ≡ s =
                    some-injective _ _ (
                      rw
                        (
                          guard,
                          found,
                          resolved steps next original staying guest.registers st r result
                              q.defined,
                          repeated,
                        )
                        at h) in
                  subst Goes is_s (record {
                    value = original source;
                    present = present;
                    runs =
                        execute-add machine operation (operand original operation.lhs)
                          (operand original operation.rhs) third guest adds
                        ∙ ap (λ (n : ℕ). continues guest n) (sym (value ∙ q.sum));
                    stands = record {
                      defined = l;
                      canonical = r.idempotent result q.defined;
                      same = refl;
                      zero_extended = r.zero_extended source l;
                      nil = r.zeros source l;
                      condition = r.conditions source l;
                    };
                  })
            ]
      ]

  -- What a read gives of a register that is known at its width.
  known_read :
      (known : Known)
      → IsKnown next original (guest.registers (the operation.guest_register)) known
      → has known.value ≡ true
      → (has_width i64 operation && known.is_full
          || has_width i32 operation && known.is_zero_extended)
        ≡ true
      → original (the known.value) ≡ read_value operation guest.registers
  unfolding read_value has_width
  known_read known k present fits = elim (Bool-cases (bits operation.width == 32)) [
    | inl low ↦
        let extended : known.is_zero_extended ≡ true = ground arith in
        rw low (k.zero_extended present extended)
    | inr high ↦ let full : known.is_full ≡ true = ground arith in rw high (k.full present full)
  ]

  zero_read :
      guest.registers (the operation.guest_register) ≡ 0 → read_value operation guest.registers ≡ 0
  unfolding read_value
  zero_read nil = elim (Bool-cases (has_width i32 operation)) [
    | inl low ↦ rw low (omega (arith, nil))
    | inr high ↦ rw high nil
  ]

  reading_parts :
      reads_register (suc steps) across_loads across_stores st operation ≡ true
      → (is Opcode.read_guest_reg operation ≡ true) × (has operation.result ≡ true)
  unfolding reads_register
  reading_parts h =
      let (front, wide) =
        both
          (is Opcode.read_guest_reg operation
            && has operation.guest_register
            && has operation.result)
          _ h in
      let (front, result) =
        both (is Opcode.read_guest_reg operation && has operation.guest_register) _ front in
      ((both (is Opcode.read_guest_reg operation) _ front).0, result)

  forwarded-Goes :
      (has operation.result ≡ true → the operation.result ≡ next)
      → (s : Replacement) → forwarded (suc steps) across_loads across_stores st operation ≡ some s
      → Goes s
  unfolding forwarded index
  forwarded-Goes built s h =
      let k : Known = st.known (the operation.guest_register) in
      let reading : Bool = reads_register (suc steps) across_loads across_stores st operation in
      let inside : Bool = ltb (the operation.guest_register) register_count in
      let fitting : Bool =
        has_width i64 operation && k.is_full || has_width i32 operation && k.is_zero_extended in
      elim (Bool-cases (reading && inside && has k.value && fitting)) [
        | inr unfit ↦ absurd (ground arith)
        | inl guard ↦
            let (front, fits) = both (reading && inside && has k.value) fitting guard in
            let (front, present) = both (reading && inside) (has k.value) front in
            let (reads, small) = both reading inside front in
            let (is_read, result) = reading_parts reads in
            let known : IsKnown next original (guest.registers (the operation.guest_register)) k =
              r.registers_known (the operation.guest_register) (ground arith) in
            let v : ℕ = the k.value in
            let l : v < next = known.defined present in
            let value : original v ≡ read_value operation guest.registers =
              known_read k known present fits in
            let is_s : record {
              source = st.replacements v;
              is_zero_extended = k.is_zero_extended;
              is_zero = k.is_zero;
              is_condition = st.condition_values (the operation.result);
            }
                ≡ s =
              some-injective _ _ (
                rw (guard, resolved steps next original staying guest.registers st r v l, forwarded)
                  at h) in
            subst Goes is_s (record {
              value = original v;
              present = result;
              runs =
                  execute-read machine operation (operand original operation.lhs)
                    (operand original operation.rhs) third guest is_read
                  ∙ ap (λ (n : ℕ). continues guest n) (sym value);
              stands = record {
                defined = r.below v l;
                canonical = r.idempotent v l;
                same = replaced_value steps next original staying guest.registers st r v l;
                zero_extended = λ z. omega (arith, known.zero_extended present z);
                nil = λ z. value ∙ zero_read (known.is_nil z);
                condition = λ c. absurd (not_condition (built result) c);
              };
            })
      ]
    where
      not_condition :
          the operation.result ≡ next → st.condition_values (the operation.result) ≡ true → ⊥
      not_condition at c =
          let fresh : st.condition_values next ≡ false = (r.fresh next (omega arith)).1 in
          let flagged : st.condition_values next ≡ true = ap st.condition_values (sym at) ∙ c in
          absurd (cc)

  pub replacement-Goes :
      (has operation.result ≡ true → the operation.result ≡ next)
      → (s : Replacement) → replacement (suc steps) across_loads across_stores st operation ≡ some s
      → Goes s
  unfolding replacement
  replacement-Goes built s h =
      elim (Option-cases (repeated (suc steps) across_loads across_stores st operation)) [
        | inl nothing ↦ forwarded-Goes built s (rw (nothing, replacement) at h)
        | inr (found, is_found) ↦ repeated-Goes s (is_found ∙ rw (is_found, replacement) at h)
      ]
