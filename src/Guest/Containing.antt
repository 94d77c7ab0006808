-- ===== src/Guest/Containing.antt =====
-- `AddressSpace::mappingContaining` (src/guest/AddressSpace.cpp): the search by upper_bound.
use rosa.Prelude.{ℕ, ◌+◌, ◌≡◌, refl, Option, none, some, List, [], ◌∷◌, arith, if◌then◌else◌}
use native.Mathlib.Nat.{le_refl}
use rosa.Guest.Mapping.{Mapping, range_contains}
use rosa.Guest.Space.{previous_of, upper_bound}
use rosa.Guest.Invariant.{Ordered}
use rosa.Guest.View.{mapping_at, mapping_at-below}

unfoldable pub mapping_containing : List Mapping → ℕ → Option Mapping
unfolding previous_of upper_bound range_contains
mapping_containing ms address = elim (previous_of ms (upper_bound ms address)) [
  | none ↦ none
  | some m ↦ if range_contains m.base m.size address 1 then some m else none
]

pub mapping_containing-mapping_at :
    (lo : ℕ) (ms : List Mapping) (x : ℕ) → Ordered lo ms → mapping_containing ms x ≡ mapping_at ms x
unfolding mapping_containing mapping_at
mapping_containing-mapping_at lo [] x v = refl
mapping_containing-mapping_at lo (n ∷ []) x v = ground (arith, v.1.not_empty)
mapping_containing-mapping_at lo (n ∷ k ∷ ks) x v = ground (
  arith,
  v.1.not_empty,
  mapping_containing-mapping_at (n.base + n.size) (k ∷ ks) x v.2,
  mapping_at-below k.base (k ∷ ks) x (le_refl k.base, v.2.1, v.2.2),
)
