-- ===== src/Guest/Access.antt =====
-- `AddressSpace::validateAccess` (src/guest/AddressSpace.cpp): an access of any size, mapping by
-- mapping.
pub mod Correct
use rosa.Prelude.{
  ℕ, zero, suc, ◌+◌, ◌-◌, ◌*◌, ◌/◌, ◌%◌, ◌^◌, ◌≤◌, ◌<◌, min, max, bit_and, bit_or, bit_xor, ◌≡◌,
  refl, sym, ap, ◌∙◌, subst, ◌≢◌, ◌↔◌, ◌⊎◌, inl, inr, Bool, true, false, not, ◌&&◌, ◌||◌, Option,
  none, some, List, [], ◌∷◌, ◌++◌, arith, ltb, leb, ◌==◌, if◌then◌else◌, Bool-cases, Option-cases,
  length, get_elem?, set, take, drop, replicate, All, u32, u64, u32_max, u64_max,
}
use rosa.Guest.Mapping.{Permission, Mapping}
use rosa.Guest.Space.{AddressSpace, Result, ok, err, Error}
use rosa.Guest.Lookup.{Found, find}

-- The loop; `size` is what is left to validate.
unfoldable pub validate_loop :
    Permission → (fuel size cursor : ℕ) → AddressSpace → Result (Unit {0}) × AddressSpace
unfolding find
validate_loop required zero size cursor s = (err Error.walk_out_of_fuel, s)
validate_loop required (suc fuel) size cursor s = elim (size == 0) [
  | true ↦ (ok tt, s)
  | false ↦ elim (find s cursor 1 required).0 [
    | err e ↦ (err e, (find s cursor 1 required).1)
    | ok f ↦
        let chunk = min size (f.mapping.size - (cursor - f.mapping.base)) in
        validate_loop required fuel (size - chunk) (cursor + chunk) (find s cursor 1 required).1
  ]
]

-- Every round validates a byte at least.
unfoldable pub validate_access :
    AddressSpace → (address size : ℕ) → Permission → Result (Unit {0}) × AddressSpace
unfolding validate_loop
validate_access s address size required = validate_loop required (suc size) size address s
