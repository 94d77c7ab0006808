-- ===== src/Ir/Optimization/Registers.antt =====
-- What is known of the guest's registers after an operation that stays (src/ir/Optimization.cpp).
use rosa.Prelude.{
  both, ℕ, suc, ◌^◌, ◌≤◌, ◌<◌, ◌≡◌, refl, sym, ap, ◌∙◌, inl, inr, Bool, true, ◌&&◌, ◌||◌, Option,
  none, some, arith, ◌==◌, Bool-cases, u32,
}
use rosa.Flags.Select.{Width, i8, i16, i32, i64}
use rosa.Ir.{Operation, has_width, has, the, bits}
use rosa.Ir.Optimization.{Forwarding, register_count, unknown, resolve, index, written}
use rosa.Ir.Optimization.Invariant.{IsKnown, Related}
use rosa.Ir.Optimization.Values.{resolved}
use rosa.Ir.Meaning.{operand, define, merged}

-- Writes, by their width.
merged_full :
    (w : Width) (old v : ℕ) (z : Bool)
    → (bits w == 32 || bits w == 64) ≡ true
    → (bits w == 64 || z) ≡ true
    → (z ≡ true → v < 2 ^ 32)
    → v ≡ merged w old v
unfolding merged bits
merged_full i8 old v z h f small = absurd (ground arith)
merged_full i16 old v z h f small = absurd (ground arith)
merged_full i32 old v z h f small = omega (arith, small f)
merged_full i64 old v z h f small = refl

merged_low :
    (w : Width) (old v : ℕ)
    → (bits w == 32 || bits w == 64) ≡ true
    → v < 2 ^ 32
    → v ≡ u32 (merged w old v)
unfolding merged bits
merged_low i8 old v h small = absurd (ground arith)
merged_low i16 old v h small = absurd (ground arith)
merged_low i32 old v h small = omega arith
merged_low i64 old v h small = omega arith

merged_zero :
    (w : Width) (old v : ℕ) → (bits w == 32 || bits w == 64) ≡ true → v ≡ 0 → merged w old v ≡ 0
unfolding merged bits
merged_zero i8 old v h e = absurd (ground arith)
merged_zero i16 old v h e = absurd (ground arith)
merged_zero i32 old v h e = omega (arith, e)
merged_zero i64 old v h e = e

merged_byte : (w : Width) (old v : ℕ) → (bits w == 8) ≡ true → old ≡ 0 → v ≤ 1 → merged w old v ≡ v
unfolding merged bits
merged_byte i8 old v h e small = omega (arith, e)
merged_byte i16 old v h e small = absurd (ground arith)
merged_byte i32 old v h e small = absurd (ground arith)
merged_byte i64 old v h e small = absurd (ground arith)

pub the-operand :
    (values : ℕ → ℕ) (o : Option ℕ) → has o ≡ true → the (operand values o) ≡ values (the o)
unfolding has the operand
the-operand values none h = absurd (cc)
the-operand values (some v) h = refl

pub define_at :
    (values : ℕ → ℕ) (o : Option ℕ) (x : ℕ) → has o ≡ true → define values o x (the o) ≡ x
unfolding has the define
define_at values none x h = absurd (cc)
define_at values (some v) x h = let same : (v == v) ≡ true = ground arith in rw same refl

pub unknown-IsKnown : (next held : ℕ) (values : ℕ → ℕ) → IsKnown next values held unknown
unfolding has
unknown-IsKnown next held values = record {
  defined = λ h. absurd (cc);
  full = λ h f. absurd (cc);
  zero_extended = λ h z. absurd (cc);
  is_nil = λ z. absurd (cc);
}

module _ (steps next : ℕ) (across_loads across_stores : Bool) (original staying registers : ℕ → ℕ)
    (st : Forwarding) (r : Related next original staying registers st) (operation : Operation)
    (canonical : has operation.lhs ≡ true
      → (the operation.lhs < next)
        × (st.replacements (the operation.lhs) ≡ the operation.lhs)) where
  -- A write's operand is its own replacement.
  source_same :
      has operation.lhs ≡ true
      → resolve (suc steps) st.replacements (the operation.lhs) ≡ the operation.lhs
  source_same h =
      let (l, e) = canonical h in
      resolved steps next original staying registers st r (the operation.lhs) l ∙ e

  abbrev pub register : ℕ
  register = the operation.guest_register

  abbrev HoldsStored : (stored : ℕ) → Type 0
  HoldsStored stored =
      IsKnown next original (merged operation.width (registers register) stored)
        (written (suc steps) across_loads across_stores st operation)

  pub written-IsKnown :
      (stored : ℕ)
      → (has operation.lhs ≡ true → stored ≡ original (the operation.lhs))
      → register < register_count
      → HoldsStored stored
  unfolding written has_width index
  written-IsKnown stored stored_is small =
      let v : ℕ = the operation.lhs in
      let wide : Bool = bits operation.width == 32 || bits operation.width == 64 in
      elim (Bool-cases (wide && has operation.lhs)) [
        | inl guard ↦
            let (w, h) = both wide (has operation.lhs) guard in
            let (l, e) = canonical h in
            rw (guard, source_same h, stored_is h, written)
              (record {
                defined = λ t. l;
                full = λ t f.
                    merged_full operation.width _ (original v) (st.zero_extended_values v) w f
                      (r.zero_extended v l);
                zero_extended =
                    λ t z. merged_low operation.width _ (original v) w (r.zero_extended v l z);
                is_nil = λ z. merged_zero operation.width _ (original v) w (r.zeros v l z);
              })
        | inr narrow ↦
            elim (Bool-cases (
              bits operation.width == 8
              && has operation.lhs
              && (st.known register).is_zero
              && st.condition_values (resolve (suc steps) st.replacements v))) [
                | inl guard ↦
                    let (front, c) =
                      both
                        (bits operation.width == 8
                          && has operation.lhs
                          && (st.known register).is_zero)
                        _ guard in
                    let (middle, z) =
                      both (bits operation.width == 8 && has operation.lhs) _ front in
                    let (w, h) = both (bits operation.width == 8) _ middle in
                    let (l, e) = canonical h in
                    let nil : registers register ≡ 0 =
                      (r.registers_known register small).is_nil z in
                    let condition : st.condition_values v ≡ true =
                      ap st.condition_values (sym (source_same h)) ∙ c in
                    let is : merged operation.width (registers register) (original v) ≡ original v =
                      merged_byte operation.width (registers register) (original v) w nil
                        (r.conditions v l condition) in
                    rw (narrow, guard, source_same h, stored_is h, is, written)
                      (record {
                        defined = λ t. l;
                        full = λ t f. refl;
                        zero_extended = λ t z. omega (arith, r.zero_extended v l z);
                        is_nil = λ z. r.zeros v l z;
                      })
                | inr other ↦ rw (narrow, other, written) (unknown-IsKnown next _ original)
              ]
      ]
