-- ===== src/Ir/Meaning/Cases.antt =====
-- The operations of Ir/Meaning by their kinds, and what of an operation its pass in src/ir/Optimization.cpp
-- can rely on.
use rosa.Prelude.{
  ℕ, ◌+◌, ◌-◌, bit_and, bit_or, bit_xor, ◌≡◌, refl, ◌⊎◌, inl, inr, true, false, Option, none, some,
  List, [], ◌∷◌, if◌then◌else◌, Bool-cases, u32, u64,
}
use rosa.Flags.Select.{i32}
use rosa.Ir.{Opcode, Operation, is, has_width, one_of, the}
use rosa.Ir.Optimization.{put}
use rosa.Ir.Meaning.{
  Guest, Outcome, continues, Machine, instruction, fit, merged, read_value, arithmetic, execute,
}

abbrev pub arithmetic_opcodes : List Opcode
arithmetic_opcodes = Opcode.add ∷ Opcode.sub ∷ Opcode.and ∷ Opcode.or ∷ Opcode.xor ∷ []

-- What `arithmetic` gives, and for which operations.
pub arithmetic_cases :
    (operation : Operation) (lhs rhs : Option ℕ)
    → ((one_of arithmetic_opcodes operation ≡ true)
        × ((n : ℕ) × (arithmetic operation lhs rhs ≡ some (fit operation n))
            × (is Opcode.add operation ≡ true → n ≡ the lhs + the rhs)))
      ⊎ ((one_of arithmetic_opcodes operation ≡ false) × (arithmetic operation lhs rhs ≡ none))
unfolding arithmetic one_of
arithmetic_cases operation lhs rhs = elim (Bool-cases (is Opcode.add operation)) [
  | inl e ↦ inl (rw e refl, (the lhs + the rhs, rw (e, arithmetic) refl, λ h. refl))
  | inr e ↦ elim (Bool-cases (is Opcode.sub operation)) [
    | inl f ↦ inl (
      rw (e, f) refl,
      (
        the lhs + 0x1_0000_0000_0000_0000 - u64 (the rhs),
        rw (e, f, arithmetic) refl,
        λ h. absurd (cc),
      ),
    )
    | inr f ↦ elim (Bool-cases (is Opcode.and operation)) [
      | inl k ↦ inl (
        rw (e, f, k) refl,
        (bit_and (the lhs) (the rhs), rw (e, f, k, arithmetic) refl, λ h. absurd (cc)),
      )
      | inr k ↦ elim (Bool-cases (is Opcode.or operation)) [
        | inl l ↦ inl (
          rw (e, f, k, l) refl,
          (bit_or (the lhs) (the rhs), rw (e, f, k, l, arithmetic) refl, λ h. absurd (cc)),
        )
        | inr l ↦ elim (Bool-cases (is Opcode.xor operation)) [
          | inl m ↦ inl (
            rw (e, f, k, l, m) refl,
            (bit_xor (the lhs) (the rhs), rw (e, f, k, l, m, arithmetic) refl, λ h. absurd (cc)),
          )
          | inr m ↦ inr (rw (e, f, k, l, m) refl, rw (e, f, k, l, m, arithmetic) refl)
        ]
      ]
    ]
  ]
]

module _ {ℓ} {World : Type ℓ} (machine : Machine World) (operation : Operation)
    (lhs rhs third : Option ℕ) (guest : Guest World) where
  abbrev pub outcome : Outcome World
  outcome = execute machine operation lhs rhs third guest

  pub data Ran : Outcome World → Type ℓ where
    constants :
        {out : Outcome World}
        → is Opcode.constant operation ≡ true
        → out
          ≡ continues guest
              (if has_width i32 operation then u32 operation.immediate else operation.immediate)
        → Ran out
    reads :
        {out : Outcome World}
        → is Opcode.read_guest_reg operation ≡ true
        → out ≡ continues guest (read_value operation guest.registers)
        → Ran out
    writes :
        {out : Outcome World}
        → is Opcode.write_guest_reg operation ≡ true
        → out
          ≡ continues
              (record guest {
                registers = put guest.registers (the operation.guest_register) (
                    merged operation.width
                      (guest.registers (the operation.guest_register))
                      (the lhs));
              })
              0
        → Ran out
    calculates :
        {out : Outcome World}
        → one_of arithmetic_opcodes operation ≡ true
        → (n : ℕ) → (is Opcode.add operation ≡ true → n ≡ the lhs + the rhs)
        → out ≡ continues guest (fit operation n)
        → Ran out
    others :
        {out : Outcome World}
        → is Opcode.constant operation ≡ false
        → is Opcode.read_guest_reg operation ≡ false
        → is Opcode.write_guest_reg operation ≡ false
        → one_of arithmetic_opcodes operation ≡ false
        → out ≡ machine.effect (instruction operation) lhs rhs third guest
        → Ran out

  pub execute-Ran : Ran outcome
  unfolding execute
  execute-Ran = elim (Bool-cases (is Opcode.constant operation)) [
    | inl e ↦ constants e (rw (e, execute) refl)
    | inr e ↦ elim (Bool-cases (is Opcode.read_guest_reg operation)) [
      | inl f ↦ reads f (rw (e, f, execute) refl)
      | inr f ↦ elim (Bool-cases (is Opcode.write_guest_reg operation)) [
        | inl k ↦ writes k (rw (e, f, k, execute) refl)
        | inr k ↦ elim (arithmetic_cases operation lhs rhs) [
          | inl (a, (n, is_value, sums)) ↦
              calculates a n sums (rw (e, f, k, is_value, execute) refl)
          | inr (a, nothing) ↦ others e f k a (rw (e, f, k, nothing, execute) refl)
        ]
      ]
    ]
  ]
