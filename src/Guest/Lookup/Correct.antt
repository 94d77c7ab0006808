-- ===== src/Guest/Lookup/Correct.antt =====
-- `AddressSpace::find` against a search of the table without the cache.
use rosa.Prelude.{
  All-set, All-at, length-set, ℕ, zero, suc, ◌+◌, ◌≤◌, ◌<◌, ◌≡◌, refl, sym, ◌∙◌, ◌⊎◌, inl, inr,
  false, Option, none, some, List, arith, leb, if◌then◌else◌, Bool-cases, Option-cases, get_elem?,
}
use rosa.Guest.Mapping.{Mapping, Permission, has_permission, range_contains}
use rosa.Guest.Space.{AddressSpace, LookupEntry, Error, Result, ok, err, upper_bound, previous_of}
use rosa.Guest.Invariant.{Ordered, IsMapping, IsValid, IsCoherent, end_of-eq, Ordered-get}
use rosa.Guest.View.{mapping_at, mapping_at-get}
use rosa.Guest.Containing.{mapping_containing, mapping_containing-mapping_at}
use rosa.Guest.Lookup.{
  Found, lookup_index, cached_mapping, searched_mapping, permit, remember, find_searched,
  find_cached, cached_entry, find,
}

-- A mapping that holds the whole access, and stands in the table.
pub record Holds (ms : List Mapping) (address size : ℕ) (f : Found) : Type 0 where
  pub stands : get_elem? ms f.index ≡ some f.mapping
  pub low : f.mapping.base ≤ address
  pub high : address + size ≤ f.mapping.base + f.mapping.size

-- A base names one mapping of the table.
same_base :
    (ms : List Mapping) (i j : ℕ) (m n : Mapping)
    → Ordered 0 ms
    → get_elem? ms i ≡ some m
    → get_elem? ms j ≡ some n
    → m.base ≡ n.base
    → m.size ≡ n.size
same_base ms i j m n v p q e =
    let gm : IsMapping m = (Ordered-get 0 ms i {m = m} v p).0 in
    let gn : IsMapping n = (Ordered-get 0 ms j {m = n} v q).0 in
    let at_m : mapping_at ms m.base ≡ some m =
      mapping_at-get 0 ms i m.base {m = m} v p (omega arith) (omega (arith, gm.not_empty)) in
    let at_n : mapping_at ms m.base ≡ some n =
      mapping_at-get 0 ms j m.base {m = n} v q (omega arith) (omega (arith, gn.not_empty)) in
    ground (arith, at_m, at_n)

-- Where an entry of the cache fits, its mapping holds the access.
cached_mapping-Holds :
    (ms : List Mapping) (e : LookupEntry) (address size : ℕ) (f : Found)
    → Ordered 0 ms
    → IsCoherent ms e
    → cached_mapping ms e address size ≡ some f
    → Holds ms address size f
unfolding cached_mapping
cached_mapping-Holds ms e address size f v (inl invalid) h = ground arith
cached_mapping-Holds ms e address size f v (inr (j, n, get, base, end)) h =
    elim (Option-cases (get_elem? ms e.index)) [
      | inl missing ↦ ground arith
      | inr (m, there) ↦ ground (arith, same_base ms e.index j m n v there get)
    ]

-- What the access means, with no cache: the mapping at the address must hold it to its end.
unfoldable pub find_reference : List Mapping → ℕ → ℕ → Permission → Result Mapping
unfolding has_permission
find_reference ms address size required = elim (mapping_at ms address) [
  | none ↦ err Error.unmapped
  | some m ↦
      if leb (address + size) (m.base + m.size)
      then (if has_permission m.permissions required then ok m else err Error.permission_violation)
      else err Error.unmapped
]

abbrev pub found_mapping : Result Found → Result Mapping
found_mapping (ok f) = ok f.mapping
found_mapping (err e) = err e

Holds-reference :
    (ms : List Mapping) (address size : ℕ) (required : Permission) (f : Found)
    → Ordered 0 ms
    → 0 < size
    → Holds ms address size f
    → find_reference ms address size required ≡ found_mapping (permit required f)
unfolding find_reference
Holds-reference ms address size required f v pos h =
    let at : mapping_at ms address ≡ some f.mapping =
      mapping_at-get 0 ms f.index address {m = f.mapping} v h.stands h.low
        (omega (arith, h.low, h.high)) in
    rw (at, find_reference) (ground (arith, h.high))

-- The search by index: what it finds holds the access, and if it finds nothing, nothing does.
searched_at :
    (ms : List Mapping) (address size index : ℕ)
    → 0 < size
    → upper_bound ms address ≡ index
    → Ordered 0 ms
    → ((f : Found) × (searched_mapping ms index address size ≡ some f) × Holds ms address size f)
      ⊎ ((searched_mapping ms index address size ≡ none)
          × ((required : Permission)
              → find_reference ms address size required ≡ err Error.unmapped))
unfolding searched_mapping find_reference
searched_at ms address size zero pos e v = inr (refl, λ required. rw (nothing, find_reference) refl)
  where
    nothing : mapping_at ms address ≡ none
    nothing =
        sym (mapping_containing-mapping_at 0 ms address v)
        ∙ (unfold mapping_containing previous_of in rw (e, mapping_containing) refl)
searched_at ms address size (suc i) pos e v = elim (Option-cases (get_elem? ms i)) [
  | inl missing ↦
      inr
        (rw (missing, searched_mapping) refl, λ required. rw (at_none missing, find_reference) refl)
  | inr (m, there) ↦
      rw (there, searched_mapping)
        (elim (Bool-cases (range_contains m.base m.size address size)) [
          | inl e ↦ inl (
            record { index = i; mapping = m },
            rw e refl,
            record {
              stands = there;
              low = unfold range_contains in ground arith;
              high = unfold range_contains in ground arith;
            },
          )
          | inr e ↦ inr (rw e refl, λ required. short m there e required)
        ])
]
  where
    -- The mapping below the address does not hold the whole access.
    short :
        (m : Mapping)
        → get_elem? ms i ≡ some m
        → range_contains m.base m.size address size ≡ false
        → (required : Permission) → find_reference ms address size required ≡ err Error.unmapped
    short m there outside required =
        let at : mapping_at ms address
            ≡ (if range_contains m.base m.size address 1 then some m else none) =
          sym (mapping_containing-mapping_at 0 ms address v)
          ∙ (unfold mapping_containing previous_of in rw (e, there, mapping_containing) refl) in
        rw (at, find_reference) (unfold range_contains in ground arith)

    at_none : get_elem? ms i ≡ none → mapping_at ms address ≡ none
    at_none missing =
        sym (mapping_containing-mapping_at 0 ms address v)
        ∙ (unfold mapping_containing previous_of in rw (e, missing, mapping_containing) refl)

module _ (s : AddressSpace) (address size : ℕ) (required : Permission) (v : IsValid s)
    (pos : 0 < size) where
  -- The outcome of `find`: the reference's result, on the same table, and a valid space.
  pub record IsFound (outcome : Result Found × AddressSpace) : Type 0 where
    pub result : found_mapping outcome.0 ≡ find_reference s.mappings address size required
    pub table : outcome.1.mappings ≡ s.mappings
    pub version : outcome.1.executable_version ≡ s.executable_version
    pub valid : IsValid outcome.1

  remember-IsValid :
      (slot : ℕ) (f : Found) → Holds s.mappings address size f → IsValid (remember s slot f)
  remember-IsValid slot f h = record {
    ordered = v.ordered;
    sixteen = length-set s.mapping_lookup slot _ ∙ v.sixteen;
    coherent = All-set (IsCoherent s.mappings) s.mapping_lookup slot _ v.coherent (
        inr (
          f.index,
          f.mapping,
          h.stands,
          refl,
          sym (end_of-eq (Ordered-get 0 s.mappings f.index {m = f.mapping} v.ordered h.stands).0),
        ));
  }

  hit :
      (slot : ℕ) (f : Found) (searched : Option Found)
      → Holds s.mappings address size f
      → IsFound (find_cached s required slot (some f) searched)
  unfolding find_cached
  hit slot f searched h = record {
    result = sym (Holds-reference s.mappings address size required f v.ordered pos h);
    table = refl;
    version = refl;
    valid = v;
  }

  miss :
      (slot : ℕ)
      → IsFound (
          find_searched s required slot
            (searched_mapping s.mappings (upper_bound s.mappings address) address size))
  unfolding find_searched
  miss slot =
      elim (searched_at s.mappings address size (upper_bound s.mappings address) pos refl
        v.ordered) [
          | inr (nothing, reference) ↦
              rw (nothing, find_searched)
                (record {
                  result = sym (reference required);
                  table = refl;
                  version = refl;
                  valid = v;
                })
          | inl (f, there, h) ↦
              let agrees : find_reference s.mappings address size required
                  ≡ found_mapping (permit required f) =
                Holds-reference s.mappings address size required f v.ordered pos h in
              elim (Bool-cases (has_permission f.mapping.permissions required)) [
                | inl e ↦
                    rw (there, find_searched, e)
                      (record {
                        result = sym (agrees ∙ (rw e refl));
                        table = refl;
                        version = refl;
                        valid = remember-IsValid slot f h;
                      })
                | inr e ↦
                    rw (there, find_searched, e)
                      (record {
                        result = sym (agrees ∙ (rw e refl));
                        table = refl;
                        version = refl;
                        valid = v;
                      })
              ]
        ]

  entry-Holds :
      (slot : ℕ) (f : Found)
      → cached_entry s slot address size ≡ some f
      → Holds s.mappings address size f
  entry-Holds slot f e = elim (Option-cases (get_elem? s.mapping_lookup slot)) [
    | inl missing ↦ absurd (unfold cached_entry in cc (rw (missing, cached_entry) at e))
    | inr (cached, there) ↦
        cached_mapping-Holds s.mappings cached address size f v.ordered
          (All-at (IsCoherent s.mappings) s.mapping_lookup slot cached v.coherent there)
          (unfold cached_entry in rw (there, cached_entry) at e)
  ]

  -- On a valid space and for an access of at least one byte, the cached search answers as the table
  -- does, permissions included, whatever
  -- the cache holds; it changes only the cache, and the space stays valid.
  pub find-IsFound : IsFound (find s address size required)
  unfolding find
  find-IsFound = elim (Option-cases (cached_entry s (lookup_index address) address size)) [
    | inl e ↦ rw (e, find_cached) (miss (lookup_index address))
    | inr (f, e) ↦ rw e (
        hit (lookup_index address) f
          (searched_mapping s.mappings (upper_bound s.mappings address) address size)
          (entry-Holds (lookup_index address) f e))
  ]
