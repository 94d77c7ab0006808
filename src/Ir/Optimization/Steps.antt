-- ===== src/Ir/Optimization/Steps.antt =====
-- The two ways of the loop's body of src/ir/Optimization.cpp: an operation goes or stays.
use rosa.Prelude.{
  ℕ, suc, ◌^◌, ◌≤◌, ◌<◌, ◌≡◌, refl, sym, ap, ◌∙◌, subst, inl, inr, Bool, true, false, [], ◌∷◌, ◌++◌,
  arith, ltb, ◌==◌, Bool-cases,
}
use rosa.Ir.{Operation}
use rosa.Ir.Optimization.{put, Known, Forwarding, Replacement, register_count}
use rosa.Ir.Optimization.Invariant.{IsKnown, IsSum, Related}
use rosa.Ir.Optimization.Values.{IsKnown-later, IsSum-later}
use rosa.Prelude.{All-end, All-map}

-- A replacement of a value: it is defined, is its own replacement, and is what the flags say.
pub record IsReplacement (next : ℕ) (original : ℕ → ℕ) (st : Forwarding) (s : Replacement)
    (value : ℕ) : Type 0 where
  pub defined : s.source < next
  pub canonical : st.replacements s.source ≡ s.source
  pub same : original s.source ≡ value
  pub zero_extended : s.is_zero_extended ≡ true → value < 2 ^ 32
  pub nil : s.is_zero ≡ true → value ≡ 0
  pub condition : s.is_condition ≡ true → value ≤ 1

-- Below or at the next value.
split : (next v : ℕ) (P : ℕ → Type 0) → ((v : ℕ) → v < next → P v) → P next → v < suc next → P v
split next v P old new l = elim (Bool-cases (ltb v next)) [
  | inl below ↦ old v (ground arith)
  | inr not_below ↦ let at : next ≡ v = ground arith in subst P at new
]

-- Writes to an array, elsewhere and at the index.
put_below {ℓ} :
    {A : Type ℓ} (array : ℕ → A) (next v : ℕ) (a : A) → v < next → put array next a v ≡ array v
put_below array next v a l = let apart : (v == next) ≡ false = ground arith in rw apart refl

pub put_at {ℓ} : {A : Type ℓ} (array : ℕ → A) (next : ℕ) (a : A) → put array next a next ≡ a
put_at array next a = let same : (next == next) ≡ true = ground arith in rw same refl

put_above {ℓ} :
    {A : Type ℓ} (array : ℕ → A) (next v : ℕ) (a : A) → suc next ≤ v → put array next a v ≡ array v
put_above array next v a l = let apart : (v == next) ≡ false = ground arith in rw apart refl

-- A fact on flagged values, with one value more.
flagged :
    (next value : ℕ) (flags : ℕ → Bool) (flag : Bool) (values : ℕ → ℕ) (P : ℕ → Type 0)
    → ((v : ℕ) → v < next → flags v ≡ true → P (values v))
    → (flag ≡ true → P value)
    → (v : ℕ) → v < suc next
    → put flags next flag v ≡ true
    → P (put values next value v)
flagged next value flags flag values P old new v l =
    split next v (λ (v : ℕ). put flags next flag v ≡ true → P (put values next value v))
      (λ v below.
        rw (put_below flags next v flag below, put_below values next v value below) (old v below))
      (rw (put_at flags next flag, put_at values next value) new) l

module _ (next value : ℕ) (original staying registers : ℕ → ℕ) (st : Forwarding)
    (r : Related next original staying registers st) where
  pub agree : (v : ℕ) → v < next → put original next value v ≡ original v
  agree v l = put_below original next v value l

  abbrev pub with_replacement : Replacement → Forwarding
  with_replacement s = record {
    known = st.known;
    replacements = put st.replacements next s.source;
    zero_extended_values = put st.zero_extended_values next s.is_zero_extended;
    zero_values = put st.zero_values next s.is_zero;
    condition_values = put st.condition_values next s.is_condition;
    operations = st.operations;
  }

  -- An operation that goes.
  pub replaced-Related :
      (s : Replacement)
      → IsReplacement next original st s value
      → Related (suc next) (put original next value) staying registers (with_replacement s)
  replaced-Related s p = record {
    below = λ v l.
        split next v (λ (v : ℕ). put st.replacements next s.source v < suc next)
          (λ v below.
            rw (put_below st.replacements next v s.source below) (omega (arith, r.below v below)))
          (rw (put_at st.replacements next s.source) (omega (arith, p.defined))) l;
    idempotent = λ v l.
        split next v
          (λ (v : ℕ).
            put st.replacements next s.source (put st.replacements next s.source v)
            ≡ put st.replacements next s.source v)
          (λ v below.
            rw
              (
                put_below st.replacements next v s.source below,
                put_below st.replacements next (st.replacements v) s.source (r.below v below),
              )
              (r.idempotent v below))
          (rw
            (
              put_at st.replacements next s.source,
              put_below st.replacements next s.source s.source p.defined,
            )
            p.canonical)
          l;
    same = λ v l.
        split next v
          (λ (v : ℕ). staying (put st.replacements next s.source v) ≡ put original next value v)
          (λ v below.
            rw
              (
                put_below st.replacements next v s.source below,
                put_below original next v value below,
              )
              (r.same v below))
          (rw (put_at st.replacements next s.source, put_at original next value)
            (ap staying (sym p.canonical) ∙ r.same s.source p.defined ∙ p.same))
          l;
    fresh = λ v l.
        rw
          (
            put_above st.replacements next v s.source l,
            put_above st.condition_values next v s.is_condition l,
          )
          (r.fresh v (omega (arith, l)));
    zero_extended =
        flagged next value st.zero_extended_values s.is_zero_extended original
          (λ (n : ℕ). n < 2 ^ 32) r.zero_extended p.zero_extended;
    zeros = flagged next value st.zero_values s.is_zero original (λ (n : ℕ). n ≡ 0) r.zeros p.nil;
    conditions =
        flagged next value st.condition_values s.is_condition original (λ (n : ℕ). n ≤ 1)
          r.conditions p.condition;
    registers_known = λ i small.
        IsKnown-later next (suc next) original (put original next value) (omega arith) agree
          (registers i) (st.known i) (r.registers_known i small);
    sums =
        All-map _ _ st.operations
          (IsSum-later next (suc next) original (put original next value) (omega arith) agree)
          r.sums;
  }

  -- An operation that stays and has a result.
  abbrev pub with_result :
      (known : ℕ → Known) → (zero_extended is_zero condition : Bool) → Operation → Forwarding
  with_result known zero_extended is_zero condition operation = record {
    known = known;
    replacements = st.replacements;
    zero_extended_values = put st.zero_extended_values next zero_extended;
    zero_values = put st.zero_values next is_zero;
    condition_values = put st.condition_values next condition;
    operations = st.operations ++ operation ∷ [];
  }

  pub kept-Related :
      (known : ℕ → Known) (zero_extended is_zero condition : Bool) (operation : Operation)
      (later : ℕ → ℕ)
      → (zero_extended ≡ true → value < 2 ^ 32)
      → (is_zero ≡ true → value ≡ 0)
      → (condition ≡ true → value ≤ 1)
      → ((i : ℕ)
          → i < register_count
          → IsKnown (suc next) (put original next value) (later i) (known i))
      → IsSum (suc next) (put original next value) operation
      → Related
          (suc next)
          (put original next value)
          (put staying next value)
          later
          (with_result known zero_extended is_zero condition operation)
  kept-Related known zero_extended is_zero condition operation later fits nil small registers_known
        sum =
      record {
        below = λ v l.
            split next v (λ (v : ℕ). st.replacements v < suc next)
              (λ v below. omega (arith, r.below v below))
              (omega (arith, (r.fresh next (omega arith)).0)) l;
        idempotent = λ v l.
            split next v (λ (v : ℕ). st.replacements (st.replacements v) ≡ st.replacements v)
              r.idempotent (ap st.replacements (r.fresh next (omega arith)).0) l;
        same = λ v l.
            split next v
              (λ (v : ℕ). put staying next value (st.replacements v) ≡ put original next value v)
              (λ v below.
                rw
                  (
                    put_below staying next (st.replacements v) value (r.below v below),
                    put_below original next v value below,
                  )
                  (r.same v below))
              (ap (put staying next value) (r.fresh next (omega arith)).0
                ∙ put_at staying next value
                ∙ sym (put_at original next value))
              l;
        fresh = λ v l.
            rw (put_above st.condition_values next v condition l) (r.fresh v (omega (arith, l)));
        zero_extended =
            flagged next value st.zero_extended_values zero_extended original
              (λ (n : ℕ). n < 2 ^ 32) r.zero_extended fits;
        zeros = flagged next value st.zero_values is_zero original (λ (n : ℕ). n ≡ 0) r.zeros nil;
        conditions =
            flagged next value st.condition_values condition original (λ (n : ℕ). n ≤ 1)
              r.conditions small;
        registers_known = registers_known;
        sums =
            All-end _ st.operations operation
              (All-map _ _ st.operations
                (IsSum-later next (suc next) original (put original next value) (omega arith) agree)
                r.sums)
              sum;
      }

  -- An operation that stays and has no result.
  pub passed-Related :
      (known : ℕ → Known) (operation : Operation) (later : ℕ → ℕ)
      → ((i : ℕ) → i < register_count → IsKnown next original (later i) (known i))
      → IsSum next original operation
      → Related next original staying later
          (record st { known = known; operations = st.operations ++ operation ∷ [] })
  passed-Related known operation later registers_known sum = record {
    below = r.below;
    idempotent = r.idempotent;
    same = r.same;
    fresh = r.fresh;
    zero_extended = r.zero_extended;
    zeros = r.zeros;
    conditions = r.conditions;
    registers_known = registers_known;
    sums = All-end _ st.operations operation r.sums sum;
  }
