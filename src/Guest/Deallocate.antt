-- ===== src/Guest/Deallocate.antt =====
-- `AddressSpace::deallocate` (src/guest/AddressSpace.cpp): the pieces that remain of each mapping,
-- and the exchange of the table.
pub mod Pieces
pub mod Correct
use rosa.Prelude.{
  ℕ, zero, suc, ◌+◌, ◌-◌, ◌*◌, ◌/◌, ◌%◌, ◌^◌, ◌≤◌, ◌<◌, min, max, bit_and, bit_or, bit_xor, ◌≡◌,
  refl, sym, ap, ◌∙◌, subst, ◌≢◌, ◌↔◌, ◌⊎◌, inl, inr, Bool, true, false, not, ◌&&◌, ◌||◌, Option,
  none, some, List, [], ◌∷◌, ◌++◌, arith, ltb, leb, ◌==◌, if◌then◌else◌, Bool-cases, Option-cases,
  length, get_elem?, set, take, drop, replicate, All, u32, u64, u32_max, u64_max,
}
use rosa.Guest.Mapping.{Mapping, is_executable, end_of, slice}
use rosa.Guest.Space.{AddressSpace, Result, ok, err, ◌>>=◌}
use rosa.Guest.Pages.{PageRange, page_range}
use rosa.Guest.Protect.{result_count, replace_all, exchange}

pub data DeallocateResult : Type 0 where
  success invalid_argument : DeallocateResult

-- The lambda `slice` of `deallocate`, which keeps the permissions.
abbrev pub keep_slice : Mapping → ℕ → ℕ → Mapping
keep_slice m from to = slice m from to m.permissions m.maximum_permissions

abbrev pub is_outside : ℕ → ℕ → Mapping → Bool
is_outside start end m = leb (end_of m) start || leb end m.base

unfoldable pub deallocate_pieces : ℕ → ℕ → Mapping → List Mapping
unfolding slice
deallocate_pieces start end m =
    if is_outside start end m
    then m ∷ []
    else (if ltb m.base start then keep_slice m m.base start ∷ [] else [])
      ++ (if ltb end (end_of m) then keep_slice m end (end_of m) ∷ [] else [])

-- The flag removedExecutableMapping.
unfoldable pub removes_executable : ℕ → ℕ → List Mapping → Bool
unfolding is_executable
removes_executable start end [] = false
removes_executable start end (m ∷ ms) =
    (not (is_outside start end m) && is_executable m.permissions) || removes_executable start end ms

unfoldable pub deallocate : AddressSpace → ℕ → ℕ → Result (DeallocateResult × AddressSpace)
unfolding page_range deallocate_pieces removes_executable result_count replace_all exchange
deallocate s address size = if size == 0 then ok (success, s) else elim (page_range address size) [
  | none ↦ ok (invalid_argument, s)
  | some r ↦ do
    reserved ← result_count (deallocate_pieces r.start r.end) 0 s.mappings
    ok (
      success,
      exchange s (replace_all (deallocate_pieces r.start r.end) s.mappings)
          (removes_executable r.start r.end s.mappings),
    )
]
