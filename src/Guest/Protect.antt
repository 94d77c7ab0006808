-- ===== src/Guest/Protect.antt =====
-- `AddressSpace::protect` (src/guest/AddressSpace.cpp): the walk that checks the range, the pieces
-- that replace each mapping, and the exchange of the table. The walk takes fuel.
pub mod Pieces
pub mod Walking
pub mod Correct
use rosa.Prelude.{
  ℕ, zero, suc, ◌+◌, ◌-◌, min, max, Bool, not, ◌&&◌, ◌||◌, none, some, List, [], ◌∷◌, ◌++◌, ltb,
  leb, ◌==◌, if◌then◌else◌, length, u64_max,
}
use rosa.Guest.Mapping.{Mapping, Permission, has_permission, is_executable, end_of, slice}
use rosa.Guest.Space.{
  AddressSpace, Error, Result, ok, err, ◌>>=◌, bump_if, invalidate_mapping_lookup,
}
use rosa.Guest.Containing.{mapping_containing}
use rosa.Guest.Pages.{PageRange, page_range}

pub data ProtectResult : Type 0 where
  success invalid_address protection_failure invalid_argument : ProtectResult

-- How the walk over the range ends; `walked` has the flag changesExecutableMapping.
pub data Walk : Type 0 where
  walked : Bool → Walk
  hole denied out_of_fuel : Walk

unfoldable pub walk : List Mapping → Permission → Bool → ℕ → (fuel cursor : ℕ) → Bool → Walk
unfolding mapping_containing has_permission is_executable
walk ms permissions private_copy end zero cursor changes =
    if ltb cursor end then out_of_fuel else walked changes
walk ms permissions private_copy end (suc fuel) cursor changes =
    if ltb cursor end
    then elim (mapping_containing ms cursor) [
      | none ↦ hole
      | some m ↦
          let rest =
            walk ms permissions private_copy end fuel (min end (end_of m))
              (changes || is_executable m.permissions) in
          if not private_copy && not (has_permission m.maximum_permissions permissions)
          then denied
          else rest
    ]
    else walked changes

-- The up to three mappings that replace one mapping of the table.
unfoldable pub protect_pieces : ℕ → ℕ → Permission → Bool → Mapping → List Mapping
unfolding slice
protect_pieces start end permissions private_copy m =
    let current_start = m.base in
    let current_end = end_of m in
    if leb current_end start || leb end current_start
    then m ∷ []
    else (let protected_start = max current_start start in
        let protected_end = min current_end end in
        (if ltb current_start start
          then slice m current_start start m.permissions m.maximum_permissions ∷ []
          else [])
        ++ slice m protected_start protected_end permissions
            (if private_copy then permissions else m.maximum_permissions)
          ∷ (if ltb protected_end current_end
              then slice m protected_end current_end m.permissions m.maximum_permissions ∷ []
              else []))

-- addMappingCount over the replacements.
unfoldable pub result_count : (Mapping → List Mapping) → ℕ → List Mapping → Result ℕ
result_count pieces count [] = ok count
result_count pieces count (m ∷ ms) =
    let amount = length (pieces m) in
    let rest = result_count pieces (count + amount) ms in
    if ltb (u64_max - count) amount then err Error.count_overflow else rest

-- The updated table.
unfoldable pub replace_all : (Mapping → List Mapping) → List Mapping → List Mapping
replace_all pieces [] = []
replace_all pieces (m ∷ ms) = pieces m ++ replace_all pieces ms

-- `updated` is swapped in.
unfoldable pub exchange : AddressSpace → List Mapping → Bool → AddressSpace
unfolding invalidate_mapping_lookup
exchange s updated changes =
    bump_if changes (invalidate_mapping_lookup (record s { mappings = updated }))

unfoldable pub protect_range :
    AddressSpace → PageRange → Permission → Bool → Walk → Result (ProtectResult × AddressSpace)
unfolding protect_pieces result_count replace_all exchange
protect_range s r permissions private_copy hole = ok (invalid_address, s)
protect_range s r permissions private_copy denied = ok (protection_failure, s)
protect_range s r permissions private_copy out_of_fuel = err Error.walk_out_of_fuel
protect_range s r permissions private_copy (walked changes) =
    let pieces = protect_pieces r.start r.end permissions private_copy in
    do
      reserved ← result_count pieces 0 s.mappings
      ok (success, exchange s (replace_all pieces s.mappings) changes)

unfoldable pub protect :
    AddressSpace → ℕ → ℕ → Permission → Bool → Result (ProtectResult × AddressSpace)
unfolding page_range walk protect_range is_executable
protect s address size permissions private_copy =
    if size == 0 then ok (success, s) else elim (page_range address size) [
      | none ↦ ok (invalid_argument, s)
      | some r ↦ protect_range s r permissions private_copy (
          walk s.mappings permissions private_copy r.end (suc (length s.mappings)) r.start
            (is_executable permissions))
    ]
