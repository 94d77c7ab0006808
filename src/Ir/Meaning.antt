-- ===== src/Ir/Meaning.antt =====
-- What a block of src/ir/IR.h does to the guest's state, as src/arm64/Backend.cpp makes it do: constants, the
-- guest's registers, additions, subtractions and bit operations are written out; the other operations are an
-- interface, with what the passes rely on of them.
pub mod Cases
pub mod Facts
use rosa.Prelude.{
  ℕ, zero, suc, ◌+◌, ◌-◌, ◌*◌, ◌/◌, ◌%◌, ◌^◌, ◌≤◌, ◌<◌, min, max, bit_and, bit_or, bit_xor, ◌≡◌,
  refl, sym, ap, ◌∙◌, subst, ◌≢◌, ◌↔◌, ◌⊎◌, inl, inr, Bool, true, false, not, ◌&&◌, ◌||◌, Option,
  none, some, List, [], ◌∷◌, ◌++◌, arith, ltb, leb, ◌==◌, if◌then◌else◌, Bool-cases, Option-cases,
  length, get_elem?, set, take, drop, replicate, All, u32, u64, u32_max, u64_max,
}
use rosa.Flags.Select.{Width, i8, i16, i32, i64}
use rosa.Ir.{Opcode, Operation, Block, is, has_width, one_of, has, the, bits}
use rosa.Ir.Optimization.{put}

-- The guest's registers, and the rest of its state.
pub record Guest {ℓ} (World : Type ℓ) : Type ℓ where
  pub registers : ℕ → ℕ
  pub world : World

-- An operation gives a value and goes on, or leaves the block (an exit or a fault).
pub data Outcome {ℓ} (World : Type ℓ) : Type ℓ where
  continues : Guest World → (value : ℕ) → Outcome World
  leaves : Guest World → Outcome World

-- The operations that do not write the guest's general registers, of those below.
abbrev pub leaving_registers : List Opcode
leaving_registers =
    Opcode.shift_left ∷ Opcode.shift_right_logical ∷ Opcode.shift_right_arithmetic
    ∷ Opcode.multiply_low ∷ Opcode.multiply_high_unsigned ∷ Opcode.multiply_high_signed
    ∷ Opcode.shift_right_double ∷ Opcode.sign_extend32 ∷ Opcode.byte_swap
    ∷ Opcode.evaluate_condition ∷ Opcode.load_guest ∷ Opcode.store_guest ∷ Opcode.update_add_flags
    ∷ Opcode.update_logic_flags ∷ Opcode.update_sub_flags ∷ []

-- An operation without the numbers of its values, which do not matter to what it does.
abbrev pub instruction : Operation → Operation
instruction operation = record operation { result = none; lhs = none; rhs = none; third = none }

-- The other operations: what each does with its operands' values.
pub record Machine {ℓ} (World : Type ℓ) : Type ℓ where
  pub effect : Operation → (lhs rhs third : Option ℕ) → Guest World → Outcome World
  pub condition_fits :
      (operation : Operation) (lhs rhs third : Option ℕ) (guest next : Guest World) (value : ℕ)
      → is Opcode.evaluate_condition operation ≡ true
      → effect operation lhs rhs third guest ≡ continues next value
      → value ≤ 1
  pub load_fits :
      (operation : Operation) (lhs rhs third : Option ℕ) (guest next : Guest World) (value : ℕ)
      → is Opcode.load_guest operation ≡ true
      → has_width i32 operation ≡ true
      → effect operation lhs rhs third guest ≡ continues next value
      → value < 2 ^ 32
  pub registers_stay :
      (operation : Operation) (lhs rhs third : Option ℕ) (guest next : Guest World) (value : ℕ)
      → one_of leaving_registers operation ≡ true
      → effect operation lhs rhs third guest ≡ continues next value
      → (register : ℕ) → next.registers register ≡ guest.registers register
  pub others_stay :
      (operation : Operation) (lhs rhs third : Option ℕ) (guest next : Guest World) (value : ℕ)
      → is Opcode.conditional_move_guest_reg operation ≡ true
      → has operation.guest_register ≡ true
      → effect operation lhs rhs third guest ≡ continues next value
      → (register : ℕ) → register ≢ the operation.guest_register
      → next.registers register ≡ guest.registers register

-- The low bits that a 32-bit operation keeps.
abbrev pub fit : Operation → ℕ → ℕ
fit operation value = if has_width i32 operation then u32 value else u64 value

-- The register after a write of the operation's width.
unfoldable pub merged : Width → (old value : ℕ) → ℕ
merged i8 old value = old - old % 0x100 + value % 0x100
merged i16 old value = old - old % 0x1_0000 + value % 0x1_0000
merged i32 old value = u32 value
merged i64 old value = value

unfoldable pub read_value : Operation → (registers : ℕ → ℕ) → ℕ
unfolding has_width the
read_value operation registers =
    let held = registers (the operation.guest_register) in
    if has_width i32 operation then u32 held else held

-- The value of an addition, a subtraction or a bit operation.
unfoldable pub arithmetic : Operation → (lhs rhs : Option ℕ) → Option ℕ
unfolding is the has_width
arithmetic operation lhs rhs =
    let a = the lhs in
    let b = the rhs in
    if is Opcode.add operation
    then some (fit operation (a + b))
    else (if is Opcode.sub operation
        then some (fit operation (a + 0x1_0000_0000_0000_0000 - u64 b))
        else (if is Opcode.and operation
            then some (fit operation (bit_and a b))
            else (if is Opcode.or operation
                then some (fit operation (bit_or a b))
                else (if is Opcode.xor operation
                    then some (fit operation (bit_xor a b))
                    else none))))

-- The values of the operands.
unfoldable pub operand : (values : ℕ → ℕ) → Option ℕ → Option ℕ
operand values none = none
operand values (some value) = some (values value)

-- A result is stored under its number.
unfoldable pub define : (values : ℕ → ℕ) → Option ℕ → (value : ℕ) → ℕ → ℕ
define values none value = values
define values (some result) value = put values result value

module _ {ℓ} {World : Type ℓ} (machine : Machine World) where
  -- One operation, given its operands' values.
  unfoldable pub execute : Operation → (lhs rhs third : Option ℕ) → Guest World → Outcome World
  unfolding is has the has_width merged read_value arithmetic
  execute operation lhs rhs third guest =
      let register = the operation.guest_register in
      if is Opcode.constant operation
      then (continues guest
          (if has_width i32 operation then u32 operation.immediate else operation.immediate))
      else (if is Opcode.read_guest_reg operation
          then continues guest (read_value operation guest.registers)
          else (if is Opcode.write_guest_reg operation
              then (continues
                  (record guest {
                    registers =
                        put guest.registers register
                          (merged operation.width (guest.registers register) (the lhs));
                  })
                  0)
              else elim (arithmetic operation lhs rhs) [
                | some value ↦ continues guest value
                | none ↦ machine.effect (instruction operation) lhs rhs third guest
              ]))

  unfoldable pub run : List Operation → (values : ℕ → ℕ) → Guest World → Guest World
  unfolding execute operand define
  run [] values guest = guest
  run (operation ∷ operations) values guest =
      elim (execute operation (operand values operation.lhs) (operand values operation.rhs)
        (operand values operation.third) guest) [
          | continues next value ↦ run operations (define values operation.result value) next
          | leaves next ↦ next
        ]
