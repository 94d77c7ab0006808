-- ===== src/Guest/Access/Correct.antt =====
-- `validateAccess` against the table of mappings, byte by byte.
use rosa.Prelude.{
  ℕ, zero, suc, ◌+◌, ◌-◌, ◌≤◌, ◌<◌, min, ◌≡◌, refl, sym, ap, ◌∙◌, subst, inl, inr, true, some, List,
  arith, ltb, ◌==◌, Bool-cases, Option-cases,
}
use rosa.Guest.Mapping.{Permission, Mapping, has_permission}
use rosa.Guest.Space.{AddressSpace, Result, ok, err}
use rosa.Guest.Invariant.{IsValid, Ordered}
use rosa.Guest.View.{mapping_at, mapping_at-get, mapping_at_sound}
use rosa.Guest.Lookup.{Found, find}
use rosa.Guest.Lookup.Correct.{IsFound, find-IsFound, find_reference}
use rosa.Guest.Access.{validate_loop, validate_access}

-- The guest may access the byte at `x`.
abbrev pub Permits : List Mapping → Permission → ℕ → Type 0
Permits ms required x =
    (m : Mapping) × (mapping_at ms x ≡ some m) × (has_permission m.permissions required ≡ true)

permits_iff :
    (ms : List Mapping) (required : Permission) (x : ℕ) (m : Mapping)
    → find_reference ms x 1 required ≡ ok m
    → (mapping_at ms x ≡ some m) × (has_permission m.permissions required ≡ true)
unfolding find_reference
permits_iff ms required x m h = elim (Option-cases (mapping_at ms x)) [
  | inl e ↦ ground arith
  | inr (n, e) ↦ ground (arith, h)
]

module _ (ms : List Mapping) (required : Permission) where
  -- What the loop answers from a cursor on: all bytes are permitted, or the first that is not is met.
  abbrev pub Answers : (address size : ℕ) → Result (Unit {0}) → Type 0
  Answers address size (ok done) =
      (x : ℕ) → address ≤ x → x < address + size → Permits ms required x
  Answers address size (err e) =
      (x : ℕ) × (address ≤ x)
      × (x < address + size)
      × (find_reference ms x 1 required ≡ err e)
      × ((y : ℕ) → address ≤ y → y < x → Permits ms required y)

  later :
      (size chunk cursor : ℕ) (r : Result (Unit {0}))
      → chunk ≤ size
      → ((x : ℕ) → cursor ≤ x → x < cursor + chunk → Permits ms required x)
      → Answers (cursor + chunk) (size - chunk) r
      → Answers cursor size r
  later size chunk cursor (ok done) fit first rest = λ x p q.
      elim (Bool-cases (ltb x (cursor + chunk))) [
        | inl e ↦ first x p (ground arith)
        | inr e ↦ rest x (ground arith) (omega arith)
      ]
  later size chunk cursor (err e) fit first (x, p, q, bad, before) = (
    x,
    omega arith,
    omega arith,
    bad,
    λ y a b. elim (Bool-cases (ltb y (cursor + chunk))) [
      | inl e ↦ first y a (ground arith)
      | inr e ↦ before y (ground arith) b
    ],
  )

  -- An outcome of the loop on a space with this table.
  pub record IsAnswer (address size version : ℕ) (outcome : Result (Unit {0}) × AddressSpace)
      : Type 0 where
    pub answer : Answers address size outcome.0
    pub table : outcome.1.mappings ≡ ms
    pub version_kept : outcome.1.executable_version ≡ version
    pub valid : IsValid outcome.1

  chunk_of : (size cursor : ℕ) → Mapping → ℕ
  chunk_of size cursor m = min size (m.size - (cursor - m.base))

  -- The bytes of the chunk all stand in the mapping that was found.
  chunk-Permits :
      (size cursor : ℕ) (m : Mapping)
      → Ordered 0 ms
      → find_reference ms cursor 1 required ≡ ok m
      → (x : ℕ) → cursor ≤ x
      → x < cursor + chunk_of size cursor m
      → Permits ms required x
  unfolding chunk_of
  chunk-Permits size cursor m v found x p q =
      let (at, may) = permits_iff ms required cursor m found in
      let (low, high, (i, get)) = mapping_at_sound ms cursor {m = m} at in
      (m, mapping_at-get 0 ms i x {m = m} v get (omega arith) (omega arith), may)

  chunk_pos :
      (size cursor : ℕ) (m : Mapping)
      → 0 < size
      → find_reference ms cursor 1 required ≡ ok m
      → 0 < chunk_of size cursor m
  unfolding chunk_of
  chunk_pos size cursor m pos found =
      let (at, may) = permits_iff ms required cursor m found in
      let (low, high, (i, get)) = mapping_at_sound ms cursor {m = m} at in omega arith

  -- One round, after its search.
  round : (fuel size cursor : ℕ) → Result Found × AddressSpace → Result (Unit {0}) × AddressSpace
  round fuel size cursor outcome = elim outcome.0 [
    | err e ↦ (err e, outcome.1)
    | ok f ↦
        let chunk = min size (f.mapping.size - (cursor - f.mapping.base)) in
        validate_loop required fuel (size - chunk) (cursor + chunk) outcome.1
  ]

  loop_lem :
      (fuel size cursor : ℕ) (s : AddressSpace)
      → size < fuel
      → IsValid s
      → s.mappings ≡ ms
      → IsAnswer cursor size s.executable_version (validate_loop required fuel size cursor s)
  unfolding validate_loop round chunk_of
  loop_lem zero size cursor s enough v same = absurd (omega arith)
  loop_lem (suc fuel) size cursor s enough v same = elim (Bool-cases (size == 0)) [
    | inl e ↦
        rw (validate_loop, e)
          (record {
            answer = λ x p q. absurd (ground arith);
            table = same;
            version_kept = refl;
            valid = v;
          })
    | inr e ↦
        rw (validate_loop, e)
          (searched (loop_lem fuel) (ground arith) (find s cursor 1 required)
            (find-IsFound s cursor 1 required v (omega arith)))
  ]
    where
      searched :
          ((size' cursor' : ℕ) (t : AddressSpace)
            → size' < fuel
            → IsValid t
            → t.mappings ≡ ms
            → IsAnswer cursor' size' t.executable_version
                (validate_loop required fuel size' cursor' t))
          → 0 < size
          → (outcome : Result Found × AddressSpace)
          → IsFound s cursor 1 required v (omega arith) outcome
          → IsAnswer cursor size s.executable_version (round fuel size cursor outcome)
      searched again pos (err e, s') found = record {
        answer = (
          cursor,
          omega arith,
          omega arith,
          ap (λ k. find_reference k cursor 1 required) (sym same) ∙ sym found.result,
          λ y p q. absurd (omega arith),
        );
        table = found.table ∙ same;
        version_kept = found.version;
        valid = found.valid;
      }
      searched again pos (ok f, s') found =
          let there : find_reference ms cursor 1 required ≡ ok f.mapping =
            ap (λ k. find_reference k cursor 1 required) (sym same) ∙ sym found.result in
          let chunk = chunk_of size cursor f.mapping in
          let positive = chunk_pos size cursor f.mapping pos there in
          let rest =
            again (size - chunk) (cursor + chunk) s' (omega arith) found.valid
              (found.table ∙ same) in
          record {
            answer =
                later size chunk cursor _ (omega arith)
                  (chunk-Permits size cursor f.mapping (subst (Ordered 0) same v.ordered) there)
                  rest.answer;
            table = rest.table;
            version_kept = rest.version_kept ∙ found.version;
            valid = rest.valid;
          }

-- On a valid space, an access of any size is validated when each of its bytes is mapped with the
-- permissions asked for, and otherwise the error is that of its first byte that is not; either way
-- the call returns, and only the lookup cache changes.
pub validate_access_lem :
    (s : AddressSpace) (address size : ℕ) (required : Permission)
    → IsValid s
    → IsAnswer s.mappings required address size s.executable_version
        (validate_access s address size required)
unfolding validate_access
validate_access_lem s address size required v =
    loop_lem s.mappings required (suc size) size address s (omega arith) v refl
