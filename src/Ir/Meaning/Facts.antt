-- ===== src/Ir/Meaning/Facts.antt =====
-- What the pass of src/ir/Optimization.cpp relies on of the operations of Ir/Meaning.
use rosa.Prelude.{
  ℕ, ◌+◌, ◌^◌, ◌≤◌, ◌<◌, ◌≡◌, sym, ap, ◌∙◌, subst, ◌≢◌, Bool, true, false, Option, List, [], ◌∷◌,
  arith, u32,
}
use rosa.Flags.Select.{i32}
use rosa.Ir.{Opcode, Operation, is, has_width, one_of, has, the, bits, number}
use rosa.Ir.Optimization.{put, preserves_host_values}
use rosa.Ir.Meaning.{
  Guest, Outcome, continues, leaves, Machine, instruction, fit, merged, read_value, execute,
}
use rosa.Ir.Meaning.Cases.{Ran, constants, reads, writes, calculates, others, execute-Ran}

module _ {ℓ} {World : Type ℓ} where
  abbrev value_of : Outcome World → ℕ
  value_of (continues guest value) = value
  value_of (leaves guest) = 0

  abbrev guest_of : Outcome World → Guest World
  guest_of (continues guest value) = guest
  guest_of (leaves guest) = guest

  pub same_value : {a b : Guest World} {m n : ℕ} → continues a m ≡ continues b n → m ≡ n
  same_value e = ap value_of e

  pub same_guest : {a b : Guest World} {m n : ℕ} → continues a m ≡ continues b n → a ≡ b
  same_guest e = ap guest_of e

abbrev pub fitting_opcodes : List Opcode
fitting_opcodes =
    Opcode.constant ∷ Opcode.read_guest_reg ∷ Opcode.add ∷ Opcode.sub ∷ Opcode.and ∷ Opcode.or
    ∷ Opcode.xor ∷ Opcode.load_guest ∷ []

remainder_small : (n : ℕ) → u32 n < 2 ^ 32
remainder_small n = omega arith

module _ {ℓ} {World : Type ℓ} (machine : Machine World) (operation : Operation)
    (lhs rhs third : Option ℕ) (guest next : Guest World) (value : ℕ)
    (goes_on : execute machine operation lhs rhs third guest ≡ continues next value) where
  ran : Ran machine operation lhs rhs third guest (continues next value)
  ran =
      subst (Ran machine operation lhs rhs third guest) goes_on
        (execute-Ran machine operation lhs rhs third guest)

  pub zero_value : is Opcode.constant operation ≡ true → operation.immediate ≡ 0 → value ≡ 0
  unfolding is number one_of has_width bits
  zero_value h z = elim ran [
    | constants e same ↦ same_value same ∙ ground (arith, z)
    | reads e same ↦ absurd (ground arith)
    | writes e same ↦ absurd (ground arith)
    | calculates e n sums same ↦ absurd (ground arith)
    | others a b c d same ↦ absurd (ground arith)
  ]

  pub condition_value : is Opcode.evaluate_condition operation ≡ true → value ≤ 1
  unfolding is number one_of
  condition_value h = elim ran [
    | constants e same ↦ absurd (ground arith)
    | reads e same ↦ absurd (ground arith)
    | writes e same ↦ absurd (ground arith)
    | calculates e n sums same ↦ absurd (ground arith)
    | others a b c d same ↦
        machine.condition_fits (instruction operation) lhs rhs third guest next value h (sym same)
  ]

  pub fitting_value :
      has_width i32 operation ≡ true → one_of fitting_opcodes operation ≡ true → value < 2 ^ 32
  unfolding is number one_of read_value
  fitting_value w h = elim ran [
    | constants e same ↦
        let is_low : value ≡ u32 operation.immediate = rw w at (same_value same) in
        omega (arith, is_low)
    | reads e same ↦
        let is_low : value ≡ u32 (guest.registers (the operation.guest_register)) =
          rw (read_value, w) at (same_value same) in
        omega (arith, is_low)
    | writes e same ↦ absurd (ground arith)
    | calculates e n sums same ↦
        let is_low : value ≡ u32 n = rw w at (same_value same) in omega (arith, is_low)
    | others a b c d same ↦
        machine.load_fits (instruction operation) lhs rhs third guest next value (ground arith) w
          (sym same)
  ]

  pub read_result :
      is Opcode.read_guest_reg operation ≡ true → value ≡ read_value operation guest.registers
  unfolding is number one_of
  read_result h = elim ran [
    | constants e same ↦ absurd (ground arith)
    | reads e same ↦ same_value same
    | writes e same ↦ absurd (ground arith)
    | calculates e n sums same ↦ absurd (ground arith)
    | others a b c d same ↦ absurd (ground arith)
  ]

  pub sum_result : is Opcode.add operation ≡ true → value ≡ fit operation (the lhs + the rhs)
  unfolding is number one_of
  sum_result h = elim ran [
    | constants e same ↦ absurd (ground arith)
    | reads e same ↦ absurd (ground arith)
    | writes e same ↦ absurd (ground arith)
    | calculates e n sums same ↦ same_value same ∙ ap (fit operation) (sums h)
    | others a b c d same ↦ absurd (ground arith)
  ]

  pub written_registers :
      is Opcode.write_guest_reg operation ≡ true
      → next.registers
        ≡ put guest.registers
            (the operation.guest_register)
            (merged operation.width (guest.registers (the operation.guest_register)) (the lhs))
  unfolding is number one_of
  written_registers h = elim ran [
    | constants e same ↦ absurd (ground arith)
    | reads e same ↦ absurd (ground arith)
    | writes e same ↦ ap (λ (g : Guest World). g.registers) (same_guest same)
    | calculates e n sums same ↦ absurd (ground arith)
    | others a b c d same ↦ absurd (ground arith)
  ]

  pub kept_registers :
      (across_loads across_stores : Bool)
      → preserves_host_values across_loads across_stores operation ≡ true
      → is Opcode.write_guest_reg operation ≡ false
      → (register : ℕ) → next.registers register ≡ guest.registers register
  unfolding is number one_of preserves_host_values
  kept_registers across_loads across_stores h w register = elim ran [
    | constants e same ↦ ap (λ (g : Guest World). g.registers register) (same_guest same)
    | reads e same ↦ ap (λ (g : Guest World). g.registers register) (same_guest same)
    | writes e same ↦ absurd (cc)
    | calculates e n sums same ↦ ap (λ (g : Guest World). g.registers register) (same_guest same)
    | others a b c d same ↦
        machine.registers_stay (instruction operation) lhs rhs third guest next value (ground arith)
          (sym same) register
  ]

  pub other_registers :
      is Opcode.conditional_move_guest_reg operation ≡ true
      → has operation.guest_register ≡ true
      → (register : ℕ) → register ≢ the operation.guest_register
      → next.registers register ≡ guest.registers register
  unfolding is number one_of
  other_registers h g register apart = elim ran [
    | constants e same ↦ absurd (ground arith)
    | reads e same ↦ absurd (ground arith)
    | writes e same ↦ absurd (ground arith)
    | calculates e n sums same ↦ absurd (ground arith)
    | others a b c d same ↦
        machine.others_stay (instruction operation) lhs rhs third guest next value h g (sym same)
          register apart
  ]

-- Reads and additions change nothing.
module _ {ℓ} {World : Type ℓ} (machine : Machine World) (operation : Operation)
    (lhs rhs third : Option ℕ) (guest : Guest World) where
  pub execute-read :
      is Opcode.read_guest_reg operation ≡ true
      → execute machine operation lhs rhs third guest
        ≡ continues guest (read_value operation guest.registers)
  unfolding is number one_of
  execute-read h = elim (execute-Ran machine operation lhs rhs third guest) [
    | constants e same ↦ absurd (ground arith)
    | reads e same ↦ same
    | writes e same ↦ absurd (ground arith)
    | calculates e n sums same ↦ absurd (ground arith)
    | others a b c d same ↦ absurd (ground arith)
  ]

  pub execute-add :
      is Opcode.add operation ≡ true
      → execute machine operation lhs rhs third guest
        ≡ continues guest (fit operation (the lhs + the rhs))
  unfolding is number one_of
  execute-add h = elim (execute-Ran machine operation lhs rhs third guest) [
    | constants e same ↦ absurd (ground arith)
    | reads e same ↦ absurd (ground arith)
    | writes e same ↦ absurd (ground arith)
    | calculates e n sums same ↦ same ∙ ap (λ (m : ℕ). continues guest (fit operation m)) (sums h)
    | others a b c d same ↦ absurd (ground arith)
  ]
