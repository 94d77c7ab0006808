-- ===== src/Guest/Batch.antt =====
-- `AddressSpace::mapSegments` (src/guest/MappingBatch.cpp): a batch of segments is validated as a
-- whole, sorted, and merged into the table. Unlike the other operations it does not clear the
-- lookup cache. std::ranges::sort is an insertion sort here; bases that are equal are refused
-- after it, so its order of equal elements does not matter.
pub mod Merge
pub mod Correct
use rosa.Prelude.{
  ℕ, zero, suc, ◌+◌, ◌-◌, ◌*◌, ◌/◌, ◌%◌, ◌^◌, ◌≤◌, ◌<◌, min, max, bit_and, bit_or, bit_xor, ◌≡◌,
  refl, sym, ap, ◌∙◌, subst, ◌≢◌, ◌↔◌, ◌⊎◌, inl, inr, Bool, true, false, not, ◌&&◌, ◌||◌, Option,
  none, some, List, [], ◌∷◌, ◌++◌, arith, ltb, leb, ◌==◌, if◌then◌else◌, Bool-cases, Option-cases,
  length, get_elem?, set, take, drop, replicate, All, u32, u64, u32_max, u64_max,
}
use mathlib.Core.List.{map}
use Prim.Native.String.{String}
use rosa.Guest.Mapping.{Mapping, Permission, is_executable, backing_of}
use rosa.Guest.Space.{
  AddressSpace, Error, Result, ok, err, ◌>>=◌, ◌>>◌, throw_if, validate_new_mapping, bump_if,
}

pub record SegmentMapping : Type 0 where
  pub base : ℕ
  pub size : ℕ
  pub permissions : Permission
  pub maximum_permissions : Permission
  pub initial_bytes : List ℕ
  pub label : String

-- The validation of every range against the live table.
unfoldable pub validate_requests : AddressSpace → List SegmentMapping → Result (Unit {0})
validate_requests s [] = ok tt
validate_requests s (r ∷ rs) = do
  throw_if (ltb r.size (length r.initial_bytes)) Error.file_bytes_exceed_size
  validate_new_mapping s r.base r.size r.permissions r.maximum_permissions
  validate_requests s rs

unfoldable pub insert_request : SegmentMapping → List SegmentMapping → List SegmentMapping
insert_request r [] = r ∷ []
insert_request r (q ∷ qs) = if leb r.base q.base then r ∷ q ∷ qs else q ∷ insert_request r qs

unfoldable pub sort_requests : List SegmentMapping → List SegmentMapping
unfolding insert_request
sort_requests [] = []
sort_requests (r ∷ rs) = insert_request r (sort_requests rs)

-- The loop over neighbours in the sorted order, after its first element.
unfoldable pub validate_neighbours : SegmentMapping → List SegmentMapping → Result (Unit {0})
validate_neighbours previous [] = ok tt
validate_neighbours previous (current ∷ rs) = do
  throw_if (ltb current.base (u64 (previous.base + previous.size))) Error.batch_overlaps
  validate_neighbours current rs

unfoldable pub validate_order : List SegmentMapping → Result (Unit {0})
unfolding validate_neighbours
validate_order [] = ok tt
validate_order (r ∷ rs) = validate_neighbours r rs

abbrev pub pending_mapping : SegmentMapping → Mapping
pending_mapping r = record {
  base = r.base;
  size = r.size;
  permissions = r.permissions;
  maximum_permissions = r.maximum_permissions;
  bytes = backing_of r.maximum_permissions r.size r.initial_bytes;
  file_bytes = none;
  file_data_offset = 0;
  lazy_file_transform = none;
  readable_bytes = [];
  label = r.label;
}

unfoldable pub adds_executable : List SegmentMapping → Bool
unfolding is_executable
adds_executable [] = false
adds_executable (r ∷ rs) = is_executable r.permissions || adds_executable rs

-- The loop that moves the two sorted vectors into one.
unfoldable pub merge : List Mapping → List Mapping → List Mapping
merge [] ps = ps
merge (m ∷ ms) [] = m ∷ ms
merge (m ∷ ms) (p ∷ ps) = elim (ltb m.base p.base) [
  | true ↦ m ∷ merge ms (p ∷ ps)
  | false ↦ p ∷ merge (m ∷ ms) ps
]

unfoldable pub map_sorted : AddressSpace → List SegmentMapping → AddressSpace
unfolding adds_executable merge
map_sorted s sorted =
    bump_if (adds_executable sorted)
      (record s { mappings = merge s.mappings (map pending_mapping sorted) })

unfoldable pub map_segments : AddressSpace → List SegmentMapping → Result AddressSpace
unfolding validate_requests sort_requests validate_order map_sorted
map_segments s [] = ok s
map_segments s (r ∷ rs) = do
  throw_if (ltb (u64_max - length s.mappings) (length (r ∷ rs))) Error.batch_overflow
  validate_requests s (r ∷ rs)
  validate_order (sort_requests (r ∷ rs))
  ok (map_sorted s (sort_requests (r ∷ rs)))
