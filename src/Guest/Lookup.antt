-- ===== src/Guest/Lookup.antt =====
-- `AddressSpace::find` (src/guest/AddressSpace.cpp): the search for the mapping of an access behind
-- a direct-mapped cache of 16 entries, which the search fills. `find` is const in the source, and
-- the cache is mutable: so it returns the space with its new cache.
pub mod Correct
use rosa.Prelude.{
  ℕ, zero, suc, ◌+◌, ◌-◌, ◌*◌, ◌/◌, ◌%◌, ◌^◌, ◌≤◌, ◌<◌, min, max, bit_and, bit_or, bit_xor, ◌≡◌,
  refl, sym, ap, ◌∙◌, subst, ◌≢◌, ◌↔◌, ◌⊎◌, inl, inr, Bool, true, false, not, ◌&&◌, ◌||◌, Option,
  none, some, List, [], ◌∷◌, ◌++◌, arith, ltb, leb, ◌==◌, if◌then◌else◌, Bool-cases, Option-cases,
  length, get_elem?, set, take, drop, replicate, All, u32, u64, u32_max, u64_max,
}
use rosa.Guest.Mapping.{Mapping, Permission, has_permission, range_contains, end_of}
use rosa.Guest.Space.{AddressSpace, LookupEntry, Error, Result, ok, err, upper_bound}

-- A mapping found, with its index in the table.
pub record Found : Type 0 where
  pub index : ℕ
  pub mapping : Mapping

unfoldable pub lookup_index : ℕ → ℕ
lookup_index address =
    let page = address / 2 ^ 12 in bit_xor (bit_xor page (page / 2 ^ 16)) (page / 2 ^ 32) % 16

-- The cached mapping, if the entry is valid, holds the whole access and still names its mapping.
unfoldable pub cached_mapping : List Mapping → LookupEntry → ℕ → ℕ → Option Found
cached_mapping ms cached address size =
    if cached.valid
      && ltb cached.index (length ms)
      && leb cached.base address
      && ltb address cached.end
      && leb size (cached.end - address)
    then elim (get_elem? ms cached.index) [
      | none ↦ none
      | some m ↦
          if m.base == cached.base
          then some (record { index = cached.index; mapping = m })
          else none
    ]
    else none

-- The search by upper_bound, of whose result this is the index.
unfoldable pub searched_mapping : List Mapping → ℕ → ℕ → ℕ → Option Found
unfolding range_contains
searched_mapping ms zero address size = none
searched_mapping ms (suc i) address size = elim (get_elem? ms i) [
  | none ↦ none
  | some m ↦
      if range_contains m.base m.size address size
      then some (record { index = i; mapping = m })
      else none
]

abbrev pub permit : Permission → Found → Result Found
permit required f =
    if has_permission f.mapping.permissions required then ok f else err Error.permission_violation

abbrev pub remember : AddressSpace → ℕ → Found → AddressSpace
remember s slot f = record s {
  mapping_lookup =
      set s.mapping_lookup slot
        (record { base = f.mapping.base; end = end_of f.mapping; index = f.index; valid = true });
}

-- A search that ends in an exception leaves the cache as it was.
unfoldable pub find_searched :
    AddressSpace → Permission → ℕ → Option Found → Result Found × AddressSpace
unfolding has_permission
find_searched s required slot none = (err Error.unmapped, s)
find_searched s required slot (some f) =
    if has_permission f.mapping.permissions required
    then (ok f, remember s slot f)
    else (err Error.permission_violation, s)

unfoldable pub find_cached :
    AddressSpace → Permission → ℕ → Option Found → Option Found → Result Found × AddressSpace
unfolding find_searched
find_cached s required slot (some f) searched = (permit required f, s)
find_cached s required slot none searched = find_searched s required slot searched

unfoldable pub cached_entry : AddressSpace → ℕ → ℕ → ℕ → Option Found
unfolding cached_mapping
cached_entry s slot address size = elim (get_elem? s.mapping_lookup slot) [
  | none ↦ none
  | some cached ↦ cached_mapping s.mappings cached address size
]

unfoldable pub find : AddressSpace → ℕ → ℕ → Permission → Result Found × AddressSpace
unfolding lookup_index cached_entry searched_mapping upper_bound find_cached
find s address size required =
    let slot = lookup_index address in
    find_cached s required slot (cached_entry s slot address size)
      (searched_mapping s.mappings (upper_bound s.mappings address) address size)
