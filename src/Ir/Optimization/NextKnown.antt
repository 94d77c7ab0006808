-- ===== src/Ir/Optimization/NextKnown.antt =====
-- The arrays on the guest's registers after an operation that stays (src/ir/Optimization.cpp).
use rosa.Prelude.{
  both, ℕ, suc, ◌<◌, ◌≡◌, refl, sym, ap, ◌∙◌, subst, ◌≢◌, inl, inr, Bool, true, false, ◌&&◌, Option,
  arith, ltb, ◌==◌, if◌then◌else◌, Bool-cases, u32,
}
use rosa.Ir.{Opcode, Operation, is, has_width, one_of, has, the, bits, number}
use rosa.Ir.Optimization.{
  put, Known, Forwarding, register_count, unknown, next_known, reads_register, written, read,
  preserves_host_values,
}
use rosa.Ir.Optimization.Invariant.{next_after, IsKnown, Related}
use rosa.Ir.Optimization.Values.{define_below, IsKnown-later, next_after_le}
use rosa.Ir.Optimization.Registers.{written-IsKnown, unknown-IsKnown, define_at, the-operand}
use rosa.Ir.Meaning.{Guest, Machine, execute, continues, operand, define, merged, read_value}
use rosa.Ir.Meaning.Facts.{read_result, written_registers, kept_registers, other_registers}

module _ {ℓ} {World : Type ℓ} (machine : Machine World) (steps next : ℕ)
    (across_loads across_stores : Bool) (original staying : ℕ → ℕ) (st : Forwarding)
    (guest after : Guest World) (r : Related next original staying guest.registers st)
    (operation : Operation)
    (canonical : has operation.lhs ≡ true
      → (the operation.lhs < next) × (st.replacements (the operation.lhs) ≡ the operation.lhs))
    (built : has operation.result ≡ true → the operation.result ≡ next)
    (complete : is Opcode.write_guest_reg operation ≡ true → has operation.guest_register ≡ true)
    (rhs third : Option ℕ) (value : ℕ)
    (goes_on : execute machine operation (operand original operation.lhs) rhs third guest
      ≡ continues after value) where
  abbrev later : ℕ → ℕ
  later = define original operation.result value

  abbrev after_next : ℕ
  after_next = next_after next operation

  agree : (v : ℕ) → v < next → later v ≡ original v
  agree v l = define_below next v value original operation.result built l

  IsKnown-after :
      (held : ℕ) (known : Known)
      → IsKnown next original held known
      → IsKnown after_next later held known
  IsKnown-after = IsKnown-later next after_next original later (next_after_le next operation) agree

  stays :
      (i : ℕ)
      → i < register_count
      → after.registers i ≡ guest.registers i
      → IsKnown after_next later (after.registers i) (st.known i)
  stays i small same =
      subst (λ (held : ℕ). IsKnown after_next later held (st.known i)) (sym same)
        (IsKnown-after _ _ (r.registers_known i small))

  abbrev register : ℕ
  register = the operation.guest_register

  -- One entry changes.
  changed :
      (known : Known) (i : ℕ)
      → i < register_count
      → (i ≡ register → IsKnown after_next later (after.registers register) known)
      → (i ≢ register → after.registers i ≡ guest.registers i)
      → IsKnown after_next later
          (after.registers i)
          ((if ltb register register_count then put st.known register known else st.known) i)
  changed known i small new old = elim (Bool-cases (i == register)) [
    | inl e ↦
        let at : i ≡ register = ground arith in
        let inside : ltb register register_count ≡ true = ground arith in
        rw (inside, e)
          (subst (λ (j : ℕ). IsKnown after_next later (after.registers j) known) (sym at) (new at))
    | inr e ↦
        let apart : i ≢ register = ground arith in
        elim (Bool-cases (ltb register register_count)) [
          | inl inside ↦ rw (inside, e) (stays i small (old apart))
          | inr outside ↦ rw outside (stays i small (old apart))
        ]
  ]

  read_full :
      (bits operation.width == 64) ≡ true
      → read_value operation guest.registers ≡ guest.registers register
  unfolding read_value has_width
  read_full f = let narrow : (bits operation.width == 32) ≡ false = ground arith in rw narrow refl

  read_low :
      (bits operation.width == 32) ≡ true
      → read_value operation guest.registers ≡ u32 (guest.registers register)
  unfolding read_value has_width
  read_low f = rw f refl

  read_stays :
      is Opcode.read_guest_reg operation ≡ true → (i : ℕ) → after.registers i ≡ guest.registers i
  unfolding is number one_of preserves_host_values
  read_stays h i =
      kept_registers machine operation (operand original operation.lhs) rhs third guest after value
        goes_on across_loads across_stores (ground arith) (ground arith) i

  reading :
      reads_register (suc steps) across_loads across_stores st operation ≡ true
      → IsKnown after_next later
          (after.registers register)
          (read (suc steps) across_loads across_stores st operation)
  unfolding reads_register read
  reading h =
      let (front, wide) =
        both
          (is Opcode.read_guest_reg operation
            && has operation.guest_register
            && has operation.result)
          _ h in
      let (front, result) =
        both (is Opcode.read_guest_reg operation && has operation.guest_register) _ front in
      let (is_read, named) = both (is Opcode.read_guest_reg operation) _ front in
      let same : after.registers register ≡ guest.registers register =
        read_stays is_read register in
      let defined : later (the operation.result) ≡ read_value operation guest.registers =
        define_at original operation.result value result
        ∙ read_result machine operation (operand original operation.lhs) rhs third guest after value
            goes_on is_read in
      record {
        defined = λ t. rw result (omega (arith, built result));
        full = λ t f. defined ∙ read_full f ∙ sym same;
        zero_extended = λ t z. defined ∙ read_low z ∙ ap u32 (sym same);
        is_nil = λ z. absurd (cc);
      }

  writing :
      is Opcode.write_guest_reg operation ≡ true
      → register < register_count
      → IsKnown after_next later
          (after.registers register)
          (written (suc steps) across_loads across_stores st operation)
  writing h small =
      let at : (register == register) ≡ true = ground arith in
      let held : after.registers register
          ≡ merged operation.width (guest.registers register)
              (the (operand original operation.lhs)) =
        ap (λ (f : ℕ → ℕ). f register)
          (written_registers machine operation (operand original operation.lhs) rhs third guest
            after value goes_on h)
        ∙ rw at refl in
      subst
        (λ (v : ℕ).
          IsKnown after_next later v (written (suc steps) across_loads across_stores st operation))
        (sym held)
        (IsKnown-after _ _ (
          written-IsKnown steps next across_loads across_stores original staying guest.registers st
            r operation canonical (the (operand original operation.lhs))
            (the-operand original operation.lhs) small))

  write_stays :
      is Opcode.write_guest_reg operation ≡ true
      → (i : ℕ) → i ≢ register
      → after.registers i ≡ guest.registers i
  write_stays h i apart =
      let other : (i == register) ≡ false = ground arith in
      ap (λ (f : ℕ → ℕ). f i)
        (written_registers machine operation (operand original operation.lhs) rhs third guest after
          value goes_on h)
      ∙ rw other refl

  reading_is_read :
      reads_register (suc steps) across_loads across_stores st operation ≡ true
      → is Opcode.read_guest_reg operation ≡ true
  unfolding reads_register
  reading_is_read h =
      let (front, wide) =
        both
          (is Opcode.read_guest_reg operation
            && has operation.guest_register
            && has operation.result)
          _ h in
      let (front, result) =
        both (is Opcode.read_guest_reg operation && has operation.guest_register) _ front in
      (both (is Opcode.read_guest_reg operation) _ front).0

  neither : (a b : Bool) → (a && b) ≡ false → (a ≡ true → b ≡ true) → a ≡ false
  neither true b h e = let f : b ≡ true = e refl in absurd (cc)
  neither false b h e = refl

  pub next_known-IsKnown :
      (i : ℕ)
      → i < register_count
      → IsKnown after_next later
          (after.registers i)
          (next_known (suc steps) across_loads across_stores st operation i)
  unfolding next_known
  next_known-IsKnown i small =
      elim (Bool-cases (reads_register (suc steps) across_loads across_stores st operation)) [
        | inl h ↦
            rw (h, next_known)
              (changed (read (suc steps) across_loads across_stores st operation) i small
                (λ at. reading h) (λ apart. read_stays (reading_is_read h) i))
        | inr not_read ↦
            elim (Bool-cases
              (is Opcode.write_guest_reg operation && has operation.guest_register)) [
                | inl h ↦
                    let (is_write, named) = both (is Opcode.write_guest_reg operation) _ h in
                    rw (not_read, h, next_known)
                      (changed (written (suc steps) across_loads across_stores st operation) i small
                        (λ at. writing is_write (omega (arith, small, at)))
                        (write_stays is_write i))
                | inr not_write ↦
                    elim (Bool-cases (
                      is Opcode.conditional_move_guest_reg operation
                      && has operation.guest_register)) [
                        | inl h ↦
                            let (is_move, named) =
                              both (is Opcode.conditional_move_guest_reg operation) _ h in
                            rw (not_read, not_write, h, next_known)
                              (changed unknown i small (λ at. unknown-IsKnown after_next _ later)
                                (other_registers machine operation (operand original operation.lhs)
                                  rhs third guest after value goes_on is_move named i))
                        | inr not_move ↦
                            elim (Bool-cases
                              (preserves_host_values across_loads across_stores operation)) [
                                | inl h ↦
                                    rw (not_read, not_write, not_move, h, next_known)
                                      (stays i small (
                                        kept_registers machine operation
                                          (operand original operation.lhs) rhs third guest after
                                          value goes_on across_loads across_stores h
                                          (neither _ _ not_write complete) i))
                                | inr spoils ↦
                                    rw (not_read, not_write, not_move, spoils, next_known)
                                      (unknown-IsKnown after_next _ later)
                              ]
                      ]
              ]
      ]
