-- ===== src/Prelude/Assoc.antt =====
-- std::map as an association list without repeated keys, in the order of insertion.
use mathlib.Core.List.{List, [], ◌∷◌}
use mathlib.Core.Option.{Option, none, some}
use mathlib.Core.Path.{◌≡◌, refl}
use native.Mathlib.Omega.{arith}
use Prim.Native.Nat.{ℕ}
use rosa.Prelude.Tests.{◌==◌, if◌then◌else◌}

module _ {ℓ} {V : Type ℓ} where
  -- find(key)
  unfoldable pub lookup : ℕ → List (ℕ × V) → Option V
  lookup k [] = none
  lookup k (entry ∷ rest) = if entry.0 == k then some entry.1 else lookup k rest

  -- emplace(key, value): a key that is there keeps its value.
  unfoldable pub emplace : ℕ → V → List (ℕ × V) → List (ℕ × V)
  emplace k v [] = (k, v) ∷ []
  emplace k v ((j, w) ∷ m) = if j == k then (j, w) ∷ m else (j, w) ∷ emplace k v m

  -- The entry's value is replaced in place; a missing key stays missing.
  unfoldable pub update : ℕ → V → List (ℕ × V) → List (ℕ × V)
  update k v [] = []
  update k v ((j, w) ∷ m) = if j == k then (j, v) ∷ m else (j, w) ∷ update k v m

  -- erase(key)
  unfoldable pub erase : ℕ → List (ℕ × V) → List (ℕ × V)
  erase k [] = []
  erase k ((j, w) ∷ m) = let rest = erase k m in if j == k then rest else (j, w) ∷ rest

  pub lookup-emplace :
      (k j : ℕ) (v : V) (m : List (ℕ × V))
      → lookup k m ≡ none
      → lookup j (emplace k v m) ≡ (if k == j then some v else lookup j m)
  unfolding lookup emplace
  lookup-emplace k j v [] h = refl
  lookup-emplace k j v ((i, w) ∷ m) h = ground (arith, lookup-emplace k j v m)

  pub lookup-update :
      (k j : ℕ) (v w : V) (m : List (ℕ × V))
      → lookup k m ≡ some w
      → lookup j (update k v m) ≡ (if k == j then some v else lookup j m)
  unfolding lookup update
  lookup-update k j v w [] h = ground arith
  lookup-update k j v w ((i, u) ∷ m) h = ground (arith, lookup-update k j v w m)

  pub lookup-erase :
      (k j : ℕ) (m : List (ℕ × V)) → lookup j (erase k m) ≡ (if k == j then none else lookup j m)
  unfolding lookup erase
  lookup-erase k j [] = ground arith
  lookup-erase k j ((i, w) ∷ m) = ground (arith, lookup-erase k j m)

  pub erase-emplace :
      (k : ℕ) (v : V) (m : List (ℕ × V)) → lookup k m ≡ none → erase k (emplace k v m) ≡ m
  unfolding lookup emplace erase
  erase-emplace k v [] h = ground arith
  erase-emplace k v ((i, w) ∷ m) h = ground (arith, erase-emplace k v m)

  -- A later write of the old value undoes a write.
  pub update-update :
      (k : ℕ) (v w : V) (m : List (ℕ × V)) → lookup k m ≡ some v → update k v (update k w m) ≡ m
  unfolding lookup update
  update-update k v w [] h = refl
  update-update k v w ((i, u) ∷ m) h = ground (arith, update-update k v w m)
