-- ===== src/Guest/Protect/Walking.antt =====
-- The walk of `protect` over its range, and what each of its answers means.
use rosa.Prelude.{
  ℕ, zero, suc, ◌+◌, ◌≤◌, ◌<◌, min, ◌≡◌, refl, sym, ◌∙◌, subst, ◌≢◌, ◌⊎◌, inl, inr, Bool, true,
  false, not, ◌&&◌, ◌||◌, none, some, List, [], ◌∷◌, arith, ltb, if◌then◌else◌, Bool-cases,
  Option-cases, length,
}
use native.Mathlib.Nat.{le_refl}
use rosa.Guest.Mapping.{Mapping, Permission, has_permission, is_executable, end_of}
use rosa.Guest.Invariant.{Ordered, end_of-eq, Ordered-get}
use rosa.Guest.View.{covers, mapping_at, mapping_at-get, mapping_at_sound}
use rosa.Guest.Containing.{mapping_containing, mapping_containing-mapping_at}
use rosa.Guest.Protect.{Walk, walked, hole, denied, out_of_fuel, walk}

-- How many mappings reach above an address: the rounds that the walk still has.
pub above : List Mapping → ℕ → ℕ
above [] x = 0
above (m ∷ ms) x = (if ltb x (m.base + m.size) then 1 else 0) + above ms x

pub above-le : (ms : List Mapping) (x : ℕ) → above ms x ≤ length ms
unfolding above
above-le [] x = omega arith
above-le (m ∷ ms) x = ground (arith, above-le ms x)

above_mono : (ms : List Mapping) (x y : ℕ) → x ≤ y → above ms y ≤ above ms x
unfolding above
above_mono [] x y h = omega arith
above_mono (m ∷ ms) x y h = ground (arith, above_mono ms x y h)

-- A step past the mapping at `x` leaves that mapping behind.
above-step :
    (ms : List Mapping) (x : ℕ) (m : Mapping)
    → mapping_at ms x ≡ some m
    → above ms (m.base + m.size) < above ms x
unfolding above mapping_at
above-step [] x m h = cc
above-step (n ∷ ns) x m h = elim (Bool-cases (covers n x)) [
  | inl e ↦ ground (arith, above_mono ns x (m.base + m.size))
  | inr e ↦ ground (arith, mapping_at_sound ns x {m = m}, above-step ns x m)
]

module _ (ms : List Mapping) (permissions : Permission) (private_copy : Bool)
    (v : Ordered 0 ms) where
  -- The mapping at an address lets `protect` give it the permissions.
  abbrev pub Allows : Mapping → Type 0
  Allows m = (private_copy ≡ true) ⊎ (has_permission m.maximum_permissions permissions ≡ true)

  -- What an answer says about the addresses from `from` up to `end`; `changes` is false only if
  -- no executable mapping is met.
  abbrev pub Says : ℕ → ℕ → Walk → Type 0
  Says from end (walked changes) =
      (x : ℕ)
      → from ≤ x
      → x < end
      → (m : Mapping) × (mapping_at ms x ≡ some m)
        × Allows m
        × ((changes ≡ true) ⊎ (is_executable m.permissions ≡ false))
  Says from end hole = (x : ℕ) × (from ≤ x) × (x < end) × (mapping_at ms x ≡ none)
  Says from end denied =
      (x : ℕ) × (m : Mapping) × (from ≤ x) × (x < end) × (mapping_at ms x ≡ some m) × ¬ Allows m
  Says from end out_of_fuel = ⊥

  -- The flag is kept once it is set.
  pub walk-keeps :
      (end fuel cursor : ℕ) → walk ms permissions private_copy end fuel cursor true ≢ walked false
  unfolding walk
  walk-keeps end zero cursor = ground arith
  walk-keeps end (suc fuel) cursor = elim (Option-cases (mapping_containing ms cursor)) [
    | inl e ↦ rw e (ground arith)
    | inr (m, e) ↦ rw e (ground (arith, walk-keeps end fuel (min end (end_of m))))
  ]

  -- An answer about the addresses past the mapping `m` extends to those of `m`.
  Says-extend :
      (cursor end : ℕ) (m : Mapping) (w : Walk)
      → cursor < end
      → mapping_at ms cursor ≡ some m
      → Allows m
      → (is_executable m.permissions ≡ true → w ≢ walked false)
      → Says (min end (m.base + m.size)) end w
      → Says cursor end w
  Says-extend cursor end m (walked changes) inside at allows keeps says = λ x p q.
      elim (Bool-cases (ltb x (m.base + m.size))) [
        | inl e ↦
            let (low, high, (i, get)) = mapping_at_sound ms cursor {m = m} at in
            (
              m,
              mapping_at-get 0 ms i x {m = m} v get (omega arith) (ground arith),
              allows,
              flag changes keeps,
            )
        | inr e ↦ says x (ground arith) q
      ]
    where
      flag :
          (changes : Bool)
          → (is_executable m.permissions ≡ true → walked changes ≢ walked false)
          → (changes ≡ true) ⊎ (is_executable m.permissions ≡ false)
      flag true k = inl refl
      flag false k = elim (Bool-cases (is_executable m.permissions)) [
        | inl e ↦ absurd (k e refl)
        | inr e ↦ inr e
      ]
  Says-extend cursor end m hole inside at allows keeps (x, p, q, e) =
      let (low, high, got) = mapping_at_sound ms cursor {m = m} at in (x, omega arith, q, e)
  Says-extend cursor end m denied inside at allows keeps (x, n, p, q, e, d) =
      let (low, high, got) = mapping_at_sound ms cursor {m = m} at in (x, n, omega arith, q, e, d)
  Says-extend cursor end m out_of_fuel inside at allows keeps says = says

  end_of-found : (x : ℕ) (m : Mapping) → mapping_at ms x ≡ some m → end_of m ≡ m.base + m.size
  end_of-found x m at =
      let (low, high, (i, get)) = mapping_at_sound ms x {m = m} at in
      end_of-eq (Ordered-get 0 ms i {m = m} v get).0

  -- One round at a mapping that covers the cursor, given what the next rounds say.
  round :
      (end fuel cursor : ℕ) (changes : Bool) (m : Mapping)
      → mapping_at ms cursor ≡ some m
      → cursor < end
      → Says (min end (end_of m)) end (
          walk ms permissions private_copy end fuel
            (min end (end_of m))
            (changes || is_executable m.permissions))
      → Says cursor end (
          if not private_copy && not (has_permission m.maximum_permissions permissions)
          then denied
          else walk ms permissions private_copy end fuel
              (min end (end_of m))
              (changes || is_executable m.permissions))
  round end fuel cursor changes m at inside rest =
      elim (Bool-cases
        (not private_copy && not (has_permission m.maximum_permissions permissions))) [
          | inl e ↦ rw e (cursor, m, le_refl cursor, inside, at, ground arith)
          | inr e ↦ rw e (
              Says-extend cursor end m
                (walk ms permissions private_copy end fuel (min end (end_of m))
                  (changes || is_executable m.permissions))
                inside at (ground arith)
                (λ x. rw x (ground (arith, walk-keeps end fuel (min end (end_of m)))))
                (subst
                  (λ n. Says (min end n) end (
                    walk ms permissions private_copy end fuel (min end (end_of m))
                      (changes || is_executable m.permissions)))
                  (end_of-found cursor m at) rest))
        ]

  pub walk-Says :
      (end fuel cursor : ℕ) (changes : Bool)
      → (end ≤ cursor) ⊎ (above ms cursor < fuel)
      → Says cursor end (walk ms permissions private_copy end fuel cursor changes)
  unfolding walk
  walk-Says end zero cursor changes h =
      let past : ltb cursor end ≡ false = ground arith in rw past (λ x p q. absurd (ground arith))
  walk-Says end (suc fuel) cursor changes h = elim (Bool-cases (ltb cursor end)) [
    | inr e ↦ rw e (λ x p q. absurd (ground arith))
    | inl e ↦ elim (Option-cases (mapping_containing ms cursor)) [
      | inl none_there ↦
          rw (e, none_there)
            (
              cursor,
              le_refl cursor,
              ground arith,
              sym (mapping_containing-mapping_at 0 ms cursor v) ∙ none_there,
            )
      | inr (m, there) ↦
          let at : mapping_at ms cursor ≡ some m =
            sym (mapping_containing-mapping_at 0 ms cursor v) ∙ there in
          let good : end_of m ≡ m.base + m.size = end_of-found cursor m at in
          rw (e, there)
            (round end fuel cursor changes m at (ground arith) (
              walk-Says end fuel (min end (end_of m)) (changes || is_executable m.permissions)
                (ground (arith, above-step ms cursor m at))))
    ]
  ]
