-- ===== src/Darwin/PortSpace/Allocation.antt =====
-- `GuestPortSpace::allocatePort` (src/darwin/PortSpace.cpp) where the next name is not in use.
use rosa.Prelude.{
  ◌<◌, ◌^◌, ap, ◌∙◌, inl, inr, arith, ltb, if◌then◌else◌, Bool-cases, ℕ, suc, ◌+◌, ◌≡◌, refl, Bool,
  true, false, Option, none, some, length,
}
use rosa.Prelude.Assoc.{lookup, emplace}
use rosa.Darwin.PortSpace.{
  GuestPort, GuestPortSpace, at_end, free_name, take_name, allocate_port, free,
}
use rosa.Darwin.PortSpace.Invariant.{IsValid, next_free, allocated-IsValid}

-- The space after a port has been put under the next name.
abbrev pub with_port : GuestPortSpace → GuestPort → GuestPortSpace
with_port s attributes = record s {
  ports =
      emplace s.next_synthetic_name (record attributes { name = s.next_synthetic_name }) s.ports;
  next_synthetic_name = s.next_synthetic_name + 0x100;
}

-- The outcome of an allocation, at the end of the names or before it.
unfoldable pub allocated : GuestPortSpace → GuestPort → Bool → Option ℕ × GuestPortSpace
allocated s attributes true = (none, s)
allocated s attributes false = (some s.next_synthetic_name, with_port s attributes)

module _ (s : GuestPortSpace) (attributes : GuestPort)
    (unused : lookup s.next_synthetic_name s.ports ≡ none) where
  free_name-next :
      (fuel : ℕ) → free_name s.ports (suc fuel) s.next_synthetic_name ≡ free s.next_synthetic_name
  unfolding free_name
  free_name-next fuel = rw (unused, free_name) refl

  taken :
      (b : Bool)
      → at_end s.next_synthetic_name ≡ b
      → take_name s attributes (free s.next_synthetic_name) ≡ allocated s attributes b
  unfolding take_name allocated
  taken true e = rw e refl
  taken false e = rw e refl

  pub allocate_port-allocated :
      allocate_port s attributes ≡ allocated s attributes (at_end s.next_synthetic_name)
  unfolding allocate_port
  allocate_port-allocated =
      rw (free_name-next (length s.ports)) (taken (at_end s.next_synthetic_name) refl)

  -- In a name space whose next name is of 32 bits, and that has no port of that name, an allocation
  -- fails, and changes nothing, exactly when the next name plus 0x100 does not fit 32 bits; otherwise it
  -- gives out the next name, puts the port asked for under it, carrying the name, and moves the next name
  -- on by 0x100.
  pub allocate_port_lem :
      s.next_synthetic_name < 2 ^ 32
      → allocate_port s attributes ≡ (
          if ltb (s.next_synthetic_name + 0x100) (2 ^ 32)
          then (some s.next_synthetic_name, with_port s attributes)
          else (none, s))
  unfolding allocated
  allocate_port_lem small = elim (Bool-cases (at_end s.next_synthetic_name)) [
    | inl full ↦
        let over : ltb (s.next_synthetic_name + 0x100) (2 ^ 32) ≡ false = ground arith in
        rw over (allocate_port-allocated ∙ ap (allocated s attributes) full)
    | inr room ↦
        let fits : ltb (s.next_synthetic_name + 0x100) (2 ^ 32) ≡ true = ground arith in
        rw fits (allocate_port-allocated ∙ ap (allocated s attributes) room)
  ]

module _ (s : GuestPortSpace) (attributes : GuestPort) (v : IsValid s) where
  allocated-cases :
      (b : Bool) → at_end s.next_synthetic_name ≡ b → IsValid (allocated s attributes b).1
  unfolding allocated
  allocated-cases true e = v
  allocated-cases false e = allocated-IsValid s v attributes e

  pub allocate_port-IsValid : IsValid (allocate_port s attributes).1
  allocate_port-IsValid =
      rw (allocate_port-allocated s attributes (next_free s v))
        (allocated-cases (at_end s.next_synthetic_name) refl)
