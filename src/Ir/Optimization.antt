-- ===== src/Ir/Optimization.antt =====
-- The forwarding of guest reads and of repeated additions (src/ir/Optimization.cpp). The arrays and vectors
-- are functions of the index; the four arrays on guest registers are one of records.
pub mod Invariant
pub mod Values
pub mod Steps
pub mod Registers
pub mod Stays
pub mod Correct
pub mod Replacements
pub mod NextKnown
pub mod Appended
pub mod Kept
pub mod Ends
use rosa.Prelude.{
  ℕ, zero, suc, ◌+◌, ◌-◌, ◌*◌, ◌/◌, ◌%◌, ◌^◌, ◌≤◌, ◌<◌, min, max, bit_and, bit_or, bit_xor, ◌≡◌,
  refl, sym, ap, ◌∙◌, subst, ◌≢◌, ◌↔◌, ◌⊎◌, inl, inr, Bool, true, false, not, ◌&&◌, ◌||◌, Option,
  none, some, List, [], ◌∷◌, ◌++◌, arith, ltb, leb, ◌==◌, if◌then◌else◌, Bool-cases, Option-cases,
  length, get_elem?, set, take, drop, replicate, All, u32, u64, u32_max, u64_max,
}
use rosa.Flags.Select.{Width, i8, i16, i32, i64}
use rosa.Ir.{Opcode, Operation, Block, is, has_width, one_of, has, the, is_same, bits}

-- isSafelyRepeatableOperation
unfoldable pub is_safely_repeatable : Operation → Bool
unfolding one_of
is_safely_repeatable operation =
    one_of
      (Opcode.constant ∷ Opcode.read_guest_reg ∷ Opcode.write_guest_reg ∷ Opcode.add ∷ Opcode.sub
        ∷ Opcode.shift_left ∷ Opcode.shift_right_logical ∷ Opcode.shift_right_arithmetic
        ∷ Opcode.multiply_low ∷ Opcode.multiply_high_unsigned ∷ Opcode.multiply_high_signed
        ∷ Opcode.shift_right_double ∷ Opcode.and ∷ Opcode.or ∷ Opcode.xor ∷ Opcode.sign_extend32
        ∷ Opcode.byte_swap ∷ Opcode.evaluate_condition ∷ Opcode.conditional_move_guest_reg
        ∷ Opcode.load_guest ∷ Opcode.update_add_flags ∷ Opcode.update_adc_flags
        ∷ Opcode.update_sbb_flags ∷ Opcode.update_inc_flags ∷ Opcode.update_dec_flags
        ∷ Opcode.update_sub_flags ∷ Opcode.update_logic_flags ∷ Opcode.update_shift_left_flags
        ∷ Opcode.update_shift_right_flags ∷ Opcode.update_shift_right_arithmetic_flags
        ∷ Opcode.update_rotate_left_flags ∷ Opcode.update_rotate_right_flags
        ∷ Opcode.update_multiply_flags ∷ Opcode.update_signed_multiply_flags
        ∷ Opcode.update_shift_right_double_flags ∷ Opcode.update_bit_test_flags ∷ Opcode.store_guest
        ∷ Opcode.exit_block ∷ [])
      operation

module _ {ℓ} {A : Type ℓ} where
  -- std::ranges::any_of and all_of
  unfoldable pub any_of : List A → (A → Bool) → Bool
  any_of [] test = false
  any_of (head ∷ tail) test = test head || any_of tail test

  unfoldable pub all_of : List A → (A → Bool) → Bool
  all_of [] test = true
  all_of (head ∷ tail) test = test head && all_of tail test

unfoldable pub has_internal_self_edge : Block → Bool
unfolding any_of all_of is_safely_repeatable is has the
has_internal_self_edge block =
    all_of block.operations is_safely_repeatable
    && any_of block.operations (λ operation.
      is Opcode.exit_block operation
      && (has operation.target && the operation.target == block.start
          || has operation.fallthrough && the operation.fallthrough == block.start))

unfoldable pub forwards_across_loads : Block → (direct_memory_loop : Bool) → Bool
unfolding any_of is has_width
forwards_across_loads block direct_memory_loop =
    direct_memory_loop
    && any_of block.operations
        (λ operation. is Opcode.load_guest operation && has_width i8 operation)

unfoldable pub forwards_across_stores : Block → (direct_memory_loop : Bool) → Bool
unfolding any_of is has_width forwards_across_loads
forwards_across_stores block direct_memory_loop =
    direct_memory_loop
    && not (forwards_across_loads block direct_memory_loop)
    && any_of block.operations
        (λ operation. is Opcode.store_guest operation && has_width i8 operation)

-- What is known of a guest register: an entry of each of currentValues, currentValuesAreFull,
-- currentValuesAreZeroExtended and currentValuesAreZero.
pub record Known : Type 0 where
  pub value : Option ℕ
  pub is_full : Bool
  pub is_zero_extended : Bool
  pub is_zero : Bool

abbrev pub unknown : Known
unknown = record { value = none; is_full = false; is_zero_extended = false; is_zero = false }

pub record Forwarding : Type 0 where
  pub known : ℕ → Known
  pub replacements : ℕ → ℕ
  pub zero_extended_values : ℕ → Bool
  pub zero_values : ℕ → Bool
  pub condition_values : ℕ → Bool
  pub operations : List Operation

-- array[index] = value
abbrev pub put {ℓ} : {A : Type ℓ} → (ℕ → A) → (index : ℕ) → A → ℕ → A
put array index value i = if i == index then value else array i

abbrev pub register_count : ℕ
register_count = 16

-- The chain of replacements, followed for at most so many steps.
unfoldable pub resolve : (steps : ℕ) → (replacements : ℕ → ℕ) → (value : ℕ) → ℕ
resolve zero replacements value = value
resolve (suc steps) replacements value =
    let rest = resolve steps replacements (replacements value) in
    if replacements value == value then value else rest

unfoldable pub canonicalize : (steps : ℕ) → (replacements : ℕ → ℕ) → Option ℕ → Option ℕ
unfolding resolve
canonicalize steps replacements none = none
canonicalize steps replacements (some value) = some (resolve steps replacements value)

unfoldable pub preserves_host_values : (across_loads across_stores : Bool) → Operation → Bool
unfolding is one_of has_width
preserves_host_values across_loads across_stores operation =
    one_of
      (Opcode.constant ∷ Opcode.read_guest_reg ∷ Opcode.write_guest_reg ∷ Opcode.add ∷ Opcode.sub
        ∷ Opcode.shift_left ∷ Opcode.shift_right_logical ∷ Opcode.shift_right_arithmetic
        ∷ Opcode.multiply_low ∷ Opcode.multiply_high_unsigned ∷ Opcode.multiply_high_signed
        ∷ Opcode.shift_right_double ∷ Opcode.and ∷ Opcode.or ∷ Opcode.xor ∷ Opcode.sign_extend32
        ∷ Opcode.byte_swap ∷ Opcode.evaluate_condition ∷ Opcode.update_add_flags
        ∷ Opcode.update_logic_flags ∷ [])
      operation
    || is Opcode.update_sub_flags operation && (has_width i8 operation || has_width i64 operation)
    || is Opcode.load_guest operation && across_loads && has_width i8 operation
    || is Opcode.store_guest operation && across_stores && has_width i8 operation

-- The operation with its values' replacements.
unfoldable pub canonical : (steps : ℕ) → (replacements : ℕ → ℕ) → Operation → Operation
unfolding canonicalize
canonical steps replacements operation = record operation {
  lhs = canonicalize steps replacements operation.lhs;
  rhs = canonicalize steps replacements operation.rhs;
  third = canonicalize steps replacements operation.third;
}

-- The test of std::ranges::find_if.
unfoldable pub is_equivalent : (operation candidate : Operation) → Bool
unfolding has is is_same bits
is_equivalent operation candidate =
    has candidate.result
    && is operation.opcode candidate
    && bits candidate.width == bits operation.width
    && is_same candidate.lhs operation.lhs
    && is_same candidate.rhs operation.rhs
    && is_same candidate.third operation.third
    && candidate.immediate == operation.immediate

-- The result of the first equivalent operation.
unfoldable pub find_equivalent : Operation → List Operation → Option ℕ
unfolding is_equivalent
find_equivalent operation [] = none
find_equivalent operation (candidate ∷ candidates) =
    let rest = find_equivalent operation candidates in
    if is_equivalent operation candidate then candidate.result else rest

-- A value in whose place another stands, and what is known of it.
pub record Replacement : Type 0 where
  pub source : ℕ
  pub is_zero_extended : Bool
  pub is_zero : Bool
  pub is_condition : Bool

-- The parts of the loop's body, for an operation whose values are their replacements.
module _ (steps : ℕ) (across_loads across_stores : Bool) (st : Forwarding)
    (operation : Operation) where
  -- A repeated addition.
  unfoldable pub repeated : Option Replacement
  unfolding has is find_equivalent resolve
  repeated =
      if across_loads && has operation.result && is Opcode.add operation
      then elim (find_equivalent operation st.operations) [
        | none ↦ none
        | some result ↦
            let source = resolve steps st.replacements result in
            some (record {
              source = source;
              is_zero_extended = st.zero_extended_values source;
              is_zero = st.zero_values source;
              is_condition = st.condition_values source;
            })
      ]
      else none

  unfoldable pub reads_register : Bool
  unfolding has is has_width
  reads_register =
      is Opcode.read_guest_reg operation
      && has operation.guest_register
      && has operation.result
      && (has_width i32 operation || has_width i64 operation)

  unfoldable pub index : ℕ
  unfolding the
  index = the operation.guest_register

  -- A read of a register whose value is known.
  unfoldable pub forwarded : Option Replacement
  unfolding has the has_width resolve reads_register index
  forwarded =
      let known = st.known index in
      if reads_register
        && ltb index register_count
        && has known.value
        && (has_width i64 operation && known.is_full
            || has_width i32 operation && known.is_zero_extended)
      then (some (record {
        source = resolve steps st.replacements (the known.value);
        is_zero_extended = known.is_zero_extended;
        is_zero = known.is_zero;
        is_condition = st.condition_values (the operation.result);
      }))
      else none

  -- What is known of a register that is written.
  unfoldable pub written : Known
  unfolding has the has_width resolve index
  written =
      let source = resolve steps st.replacements (the operation.lhs) in
      if (has_width i32 operation || has_width i64 operation) && has operation.lhs
      then (record {
        value = operation.lhs;
        is_full = has_width i64 operation || st.zero_extended_values source;
        is_zero_extended = st.zero_extended_values source;
        is_zero = st.zero_values source;
      })
      else (if has_width i8 operation
            && has operation.lhs
            && (st.known index).is_zero
            && st.condition_values source
          then (record {
            value = operation.lhs;
            is_full = true;
            is_zero_extended = st.zero_extended_values source;
            is_zero = st.zero_values source;
          })
          else unknown)

  unfoldable pub read : Known
  unfolding has_width
  read = record {
    value = operation.result;
    is_full = has_width i64 operation;
    is_zero_extended = has_width i32 operation;
    is_zero = false;
  }

  -- What is known of the registers after an operation that stays.
  unfoldable pub next_known : ℕ → Known
  unfolding has is preserves_host_values reads_register index read written
  next_known =
      if reads_register
      then (if ltb index register_count then put st.known index read else st.known)
      else (if is Opcode.write_guest_reg operation && has operation.guest_register
          then (if ltb index register_count then put st.known index written else st.known)
          else (if is Opcode.conditional_move_guest_reg operation && has operation.guest_register
              then (if ltb index register_count then put st.known index unknown else st.known)
              else (if preserves_host_values across_loads across_stores operation
                  then st.known
                  else (λ (register : ℕ). unknown))))

  unfoldable pub gives_zero : Bool
  unfolding is
  gives_zero = is Opcode.constant operation && operation.immediate == 0

  unfoldable pub gives_zero_extended : Bool
  unfolding gives_zero is has_width one_of
  gives_zero_extended =
      gives_zero
      || is Opcode.evaluate_condition operation
      || has_width i32 operation
        && one_of
            (Opcode.constant ∷ Opcode.read_guest_reg ∷ Opcode.add ∷ Opcode.sub ∷ Opcode.and
              ∷ Opcode.or ∷ Opcode.xor ∷ Opcode.load_guest ∷ [])
            operation

  -- The operation stays.
  unfoldable pub keep : Forwarding
  unfolding has the is next_known gives_zero gives_zero_extended
  keep =
      let result = the operation.result in
      if has operation.result
      then (record {
        known = next_known;
        replacements = st.replacements;
        zero_extended_values = put st.zero_extended_values result gives_zero_extended;
        zero_values = put st.zero_values result gives_zero;
        condition_values = put st.condition_values result (is Opcode.evaluate_condition operation);
        operations = st.operations ++ operation ∷ [];
      })
      else record st { known = next_known; operations = st.operations ++ operation ∷ [] }

  -- The operation goes, and another value stands for its result.
  unfoldable pub replace : Replacement → Forwarding
  unfolding the
  replace replacement =
      let result = the operation.result in
      record {
        known = st.known;
        replacements = put st.replacements result replacement.source;
        zero_extended_values = put st.zero_extended_values result replacement.is_zero_extended;
        zero_values = put st.zero_values result replacement.is_zero;
        condition_values = put st.condition_values result replacement.is_condition;
        operations = st.operations;
      }

  unfoldable pub replacement : Option Replacement
  unfolding repeated forwarded
  replacement = elim repeated [ some source ↦ some source | none ↦ forwarded ]

-- The body of the loop.
unfoldable pub forward :
    (steps : ℕ) → (across_loads across_stores : Bool) → Forwarding → Operation → Forwarding
unfolding canonical replacement replace keep
forward steps across_loads across_stores st operation =
    let canonicalized = canonical steps st.replacements operation in
    elim (replacement steps across_loads across_stores st canonicalized) [
      | some source ↦ replace steps across_loads across_stores st canonicalized source
      | none ↦ keep steps across_loads across_stores st canonicalized
    ]

unfoldable pub forward_all :
    (steps : ℕ) → (across_loads across_stores : Bool) → Forwarding → List Operation → Forwarding
unfolding forward
forward_all steps across_loads across_stores st [] = st
forward_all steps across_loads across_stores st (operation ∷ operations) =
    forward_all steps across_loads across_stores
      (forward steps across_loads across_stores st operation) operations

abbrev pub initial : Forwarding
initial = record {
  known = λ register. unknown;
  replacements = λ value. value;
  zero_extended_values = λ value. false;
  zero_values = λ value. false;
  condition_values = λ value. false;
  operations = [];
}

unfoldable pub forward_full_width_guest_reads : Block → (direct_memory_loop : Bool) → Block
unfolding forwards_across_loads forwards_across_stores forward_all
forward_full_width_guest_reads block direct_memory_loop = record block {
  operations =
      (forward_all (suc block.value_count) (forwards_across_loads block direct_memory_loop)
        (forwards_across_stores block direct_memory_loop) initial block.operations).operations;
}

unfoldable pub optimize_block : Block → Block
unfolding forward_full_width_guest_reads has_internal_self_edge
optimize_block block = forward_full_width_guest_reads block (has_internal_self_edge block)
