-- ===== src/Ir/Builder/Built.antt =====
-- What the calls of Builder keep (src/ir/IR.cpp).
use rosa.Prelude.{
  ℕ, suc, ◌^◌, ◌<◌, ◌≤◌, ◌≡◌, refl, ◌∙◌, ap, true, false, ◌==◌, none, some, List, [], ◌∷◌, ◌++◌,
  length, arith,
}
use rosa.Ir.{Opcode, Operation, Block, is, has, the, number}
use rosa.Ir.Builder.{append, next_value, define_value}
use rosa.Ir.Optimization.Invariant.{IsUsed, IsBuilt, next_after, AllBuilt}

-- The number of the next value after operations.
abbrev pub next_after_all : (next : ℕ) → List Operation → ℕ
next_after_all next [] = next
next_after_all next (operation ∷ operations) = next_after_all (next_after next operation) operations

pub record Counts (block : Block) : Type 0 where
  pub built : AllBuilt 0 block.operations
  pub count : next_after_all 0 block.operations ≡ block.value_count
  pub few : block.value_count ≤ length block.operations

-- For a block whose values 32 bits can number.
abbrev pub IsBuilding : Block → Type 0
IsBuilding block = length block.operations < 2 ^ 32 → Counts block

pub used : {n v : ℕ} → v < n → IsUsed n (some v)
unfolding has the
used l h = l

pub unused : {n : ℕ} → IsUsed n none
unfolding has
unused h = absurd (cc)

AllBuilt-append :
    (next : ℕ) (operations : List Operation) (operation : Operation)
    → AllBuilt next operations
    → IsBuilt (next_after_all next operations) operation
    → AllBuilt next (operations ++ operation ∷ [])
AllBuilt-append next [] operation all one = (one, tt)
AllBuilt-append next (head ∷ operations) operation all one =
    (all.0, AllBuilt-append (next_after next head) operations operation all.1 one)

next_after_all-append :
    (next : ℕ) (operations : List Operation) (operation : Operation)
    → next_after_all next (operations ++ operation ∷ [])
      ≡ next_after (next_after_all next operations) operation
next_after_all-append next [] operation = refl
next_after_all-append next (head ∷ operations) operation =
    next_after_all-append (next_after next head) operations operation

length-append_one :
    (operations : List Operation) (operation : Operation)
    → length (operations ++ operation ∷ []) ≡ suc (length operations)
length-append_one [] operation = refl
length-append_one (head ∷ operations) operation = ap suc (length-append_one operations operation)

module _ (block : Block) (operation : Operation) (lhs : IsUsed block.value_count operation.lhs)
    (rhs : IsUsed block.value_count operation.rhs)
    (third : IsUsed block.value_count operation.third) where
  built :
      Counts block
      → (has operation.result ≡ true → the operation.result ≡ block.value_count)
      → (is Opcode.write_guest_reg operation ≡ true → has operation.guest_register ≡ true)
      → IsBuilt (next_after_all 0 block.operations) operation
  built c result register =
      rw c.count
        (record { lhs = lhs; rhs = rhs; third = third; result = result; register = register })

  -- Of an opcode other than WriteGuestReg.
  not_write :
      (opcode : Opcode)
      → operation.opcode ≡ opcode
      → (number opcode == number Opcode.write_guest_reg) ≡ false
      → is Opcode.write_guest_reg operation ≡ true
      → has operation.guest_register ≡ true
  unfolding is
  not_write opcode same other h = absurd (cc)

  appended-IsBuilding :
      (is Opcode.write_guest_reg operation ≡ true → has operation.guest_register ≡ true)
      → operation.result ≡ none
      → IsBuilding block
      → IsBuilding (append operation block)
  unfolding append has
  appended-IsBuilding register absent building small =
      let long : length (block.operations ++ operation ∷ []) ≡ suc (length block.operations) =
        length-append_one block.operations operation in
      let c : Counts block = building (omega (arith, long, small)) in
      record {
        built =
            AllBuilt-append 0 block.operations operation c.built
              (built c (λ h. absurd (ground arith)) register);
        count = next_after_all-append 0 block.operations operation ∙ rw absent c.count;
        few = omega (arith, long, c.few);
      }

  pub append-IsBuilding :
      (opcode : Opcode)
      → operation.opcode ≡ opcode
      → (number opcode == number Opcode.write_guest_reg) ≡ false
      → operation.result ≡ none
      → IsBuilding block
      → IsBuilding (append operation block)
  append-IsBuilding opcode same other = appended-IsBuilding (not_write opcode same other)

  pub write_guest_register-IsBuilding :
      {register : ℕ}
      → operation.guest_register ≡ some register
      → operation.result ≡ none
      → IsBuilding block
      → IsBuilding (append operation block)
  unfolding has
  write_guest_register-IsBuilding given = appended-IsBuilding (λ h. rw given refl)

  pub define_value-IsBuilding :
      (opcode : Opcode)
      → operation.opcode ≡ opcode
      → (number opcode == number Opcode.write_guest_reg) ≡ false
      → operation.result ≡ none
      → IsBuilding block
      → IsBuilding (define_value operation block).1
  unfolding define_value next_value append has the is
  define_value-IsBuilding opcode same other absent building small =
      let defined : Operation = record operation { result = some block.value_count } in
      let long : length (block.operations ++ defined ∷ []) ≡ suc (length block.operations) =
        length-append_one block.operations defined in
      let c : Counts block = building (omega (arith, long, small)) in
      record {
        built = AllBuilt-append 0 block.operations defined c.built (
            rw c.count (record {
              lhs = lhs;
              rhs = rhs;
              third = third;
              result = λ h. refl;
              register = not_write opcode same other;
            }));
        count =
            next_after_all-append 0 block.operations defined
            ∙ ap suc c.count
            ∙ omega (arith, long, c.few, small);
        few = omega (arith, long, c.few);
      }
