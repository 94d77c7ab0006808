-- ===== src/Guest/Examples.antt =====
-- A small address space with an executable image and a heap, and the theorems at it.
use Prim.Native.String.{String}
use rosa.Prelude.{
  ℕ, ◌+◌, ◌%◌, ◌≤◌, ◌<◌, ◌≡◌, refl, ◌↔◌, inl, false, none, some, List, [], ◌∷◌, arith, length,
}
use rosa.Guest.Mapping.{Mapping, has_permission, backing_of}
use rosa.Guest.Space.{
  Error, err, validate_new_mapping, AddressSpace, ok, empty_space, map_segment, map_anonymous,
  empty_lookup,
}
use rosa.Guest.Invariant.{IsMapping, IsValid, empty_lookup-IsCoherent, empty_space-IsValid}
use rosa.Guest.View.{view}
use rosa.Guest.Insert.{IsFree}
use rosa.Guest.Create.{Creates, IsRange, bytes_mapping, map_segment_iff, map_anonymous-Creates}
use rosa.Guest.Segments.{IsSegment, map_segment-IsSegment}
use rosa.Guest.Pages.{PageRange, page_range, page_range_bounds}
use rosa.Guest.Protect.{protect}
use rosa.Guest.Protect.Correct.{Promise, protect_lem}
use rosa.Guest.Deallocate.{DeallocateResult, deallocate}
use rosa.Guest.Deallocate.Correct.{IsDeallocated, deallocate_lem}
use rosa.Guest.Lookup.{find}
use rosa.Guest.Lookup.Correct.{IsFound, find-IsFound}
use rosa.Guest.Access.{validate_access}
use rosa.Guest.Access.Correct.{IsAnswer, validate_access_lem}
use rosa.Guest.Batch.{SegmentMapping, map_segments}
use rosa.Guest.Batch.Correct.{IsBatch, map_segments-IsBatch}
use rosa.Guest.Steps.{anonymous, deallocates, here, next, Reach-IsValid}
use rosa.Guest.Steps.Executable.{executable, Step-executable}

abbrev image : Mapping
image = record {
  base = 0x1000;
  size = 0x3000;
  permissions = 5;
  maximum_permissions = 7;
  bytes = [];
  file_bytes = some 1;
  file_data_offset = 0;
  lazy_file_transform = none;
  readable_bytes = [];
  label = "image";
}

abbrev heap_at : ℕ → ℕ → ℕ → Mapping
heap_at base size offset = record {
  base = base;
  size = size;
  permissions = 3;
  maximum_permissions = 3;
  bytes = [];
  file_bytes = some 2;
  file_data_offset = offset;
  lazy_file_transform = none;
  readable_bytes = [];
  label = "heap";
}

abbrev process : AddressSpace
process = record {
  mappings = image ∷ heap_at 0x8000 0x3000 0 ∷ [];
  mapping_lookup = empty_lookup;
  executable_version = 1;
}

-- The page in the middle of the heap is gone.
abbrev trimmed : AddressSpace
trimmed = record process {
  mappings = image ∷ heap_at 0x8000 0x1000 0 ∷ heap_at 0xa000 0x1000 0x2000 ∷ [];
}

image-IsMapping : IsMapping image
image-IsMapping = record {
  not_empty = omega arith;
  base_aligned = refl;
  size_aligned = refl;
  fits = omega arith;
  permitted = unfold has_permission in refl;
  bytes_fill = inl refl;
  readable_fill = inl refl;
}

heap-IsMapping : IsMapping (heap_at 0x8000 0x3000 0)
heap-IsMapping = record {
  not_empty = omega arith;
  base_aligned = refl;
  size_aligned = refl;
  fits = omega arith;
  permitted = unfold has_permission in refl;
  bytes_fill = inl refl;
  readable_fill = inl refl;
}

process-IsValid : IsValid process
process-IsValid = record {
  ordered = (omega arith, image-IsMapping, (omega arith, heap-IsMapping, tt));
  sixteen = refl;
  coherent = empty_lookup-IsCoherent process.mappings;
}

trim_call : deallocate process 0x9000 0x1000 ≡ ok (DeallocateResult.success, trimmed)
unfolding deallocate
trim_call = refl

middle_page : page_range 0x9000 0x1000 ≡ some (record { start = 0x9000; end = 0xa000 })
unfolding page_range
middle_page = refl

-- A request that is not aligned is rounded outwards.
inside_page : page_range 0x9010 0x20 ≡ some (record { start = 0x9000; end = 0xa000 })
unfolding page_range
inside_page = refl

page_range_bounds_example :
    let r : PageRange = record { start = 0x9000; end = 0xa000 } in
    (r.start ≤ 0x9010)
    × (0x9010 < r.start + 4096)
    × (0x9010 + 0x20 ≤ r.end)
    × (r.end < 0x9010 + 0x20 + 4096)
    × (r.start < r.end)
    × (r.start % 4096 ≡ 0)
    × (r.end % 4096 ≡ 0)
    × (r.end < 0x1_0000_0000_0000_0000)
page_range_bounds_example = page_range_bounds 0x9010 0x20 (omega arith) inside_page

Step-executable_example : executable (view trimmed 0x2000) ≡ executable (view process 0x2000)
Step-executable_example =
    Step-executable (deallocates 0x9000 0x1000 DeallocateResult.success trim_call) process-IsValid
      refl 0x2000

deallocate_lem_example :
    (s' : AddressSpace) × (deallocate process 0x9000 0x1000 ≡ ok (DeallocateResult.success, s'))
    × IsDeallocated process 0x9000 0x1000 process-IsValid
        (record { start = 0x9000; end = 0xa000 })
        (omega arith)
        middle_page
        s'
deallocate_lem_example =
    deallocate_lem process 0x9000 0x1000 process-IsValid (record { start = 0x9000; end = 0xa000 })
      (omega arith) middle_page

protect_lem_example :
    Promise process 0x9000 0x1000 1 false process-IsValid
      (record { start = 0x9000; end = 0xa000 })
      (omega arith)
      middle_page
      (protect process 0x9000 0x1000 1 false)
protect_lem_example =
    protect_lem process 0x9000 0x1000 1 false process-IsValid
      (record { start = 0x9000; end = 0xa000 }) (omega arith) middle_page

find-IsFound_example :
    IsFound process 0x9008 8 3 process-IsValid (omega arith) (find process 0x9008 8 3)
find-IsFound_example = find-IsFound process 0x9008 8 3 process-IsValid (omega arith)

-- Two bytes in a page.
abbrev page_bytes : List ℕ
page_bytes = 0x90 ∷ 0xc3 ∷ []

-- A segment with bytes and a reservation above the heap, in a batch.
abbrev reservations : List SegmentMapping
reservations =
    record {
      base = 0x20000;
      size = 0x1000;
      permissions = 3;
      maximum_permissions = 7;
      initial_bytes = page_bytes;
      label = "upper";
    }
    ∷ record {
      base = 0x10000;
      size = 0x2000;
      permissions = 0;
      maximum_permissions = 0;
      initial_bytes = [];
      label = "lower";
    }
    ∷ []

abbrev reserved_at : ℕ → ℕ → String → Mapping
reserved_at base size label = bytes_mapping base size 0 0 [] label

abbrev extended : AddressSpace
extended = record process {
  mappings =
      image
      ∷ heap_at 0x8000 0x3000 0
      ∷ reserved_at 0x10000 0x2000 "lower"
      ∷ bytes_mapping 0x20000 0x1000 3 7 (backing_of 7 0x1000 page_bytes) "upper"
      ∷ [];
}

batch_call : map_segments process reservations ≡ ok extended
unfolding map_segments validate_new_mapping backing_of
batch_call = refl

map_segments-IsBatch_example : IsBatch process reservations extended
map_segments-IsBatch_example =
    map_segments-IsBatch process extended reservations process-IsValid (omega arith) batch_call

guard_call :
    map_segment process 0x4000 0x1000 0 0 [] "guard"
    ≡ ok (record process {
      mappings = image ∷ reserved_at 0x4000 0x1000 "guard" ∷ heap_at 0x8000 0x3000 0 ∷ [];
    })
unfolding map_segment
guard_call = refl

abbrev with_code : AddressSpace
with_code = record process {
  mappings =
      image
      ∷ bytes_mapping 0x4000 0x1000 5 7 (backing_of 7 0x1000 page_bytes) "code"
      ∷ heap_at 0x8000 0x3000 0
      ∷ [];
  executable_version = 2;
}

code_call : map_segment process 0x4000 0x1000 5 7 page_bytes "code" ≡ ok with_code
unfolding map_segment
code_call = refl

map_segment-IsSegment_example : IsSegment process 0x4000 0x1000 5 7 page_bytes "code" with_code
map_segment-IsSegment_example =
    map_segment-IsSegment process with_code 0x4000 0x1000 5 7 page_bytes "code" process-IsValid
      (omega arith) code_call

map_segment_iff_example :
    ((s' : AddressSpace) × (map_segment process 0x4000 0x1000 0 0 [] "guard" ≡ ok s')) ↔ (
      (length {A = ℕ} [] ≤ 0x1000)
      × IsRange 0x4000 0x1000 0 0
      × IsFree process.mappings 0x4000 0x1000)
map_segment_iff_example =
    map_segment_iff process 0x4000 0x1000 0 0 "guard" process-IsValid (omega arith) []

stack_call :
    map_anonymous empty_space 0x7000 0x1000 3 3 "stack" (some 9)
    ≡ ok (record empty_space {
      mappings = record (heap_at 0x7000 0x1000 0) { file_bytes = some 9; label = "stack" } ∷ [];
    })
unfolding map_anonymous
stack_call = refl

abbrev with_stack : AddressSpace
with_stack = record empty_space {
  mappings = record (heap_at 0x7000 0x1000 0) { file_bytes = some 9; label = "stack" } ∷ [];
}

map_anonymous-Creates_example :
    Creates empty_space with_stack
      (record (heap_at 0x7000 0x1000 0) { file_bytes = some 9; label = "stack" })
map_anonymous-Creates_example =
    map_anonymous-Creates empty_space 0x7000 0x1000 3 3 "stack" empty_space-IsValid (omega arith)
      (some 9) stack_call

Reach-IsValid_example : IsValid with_stack
Reach-IsValid_example =
    Reach-IsValid
      (next here (anonymous 0x7000 0x1000 3 3 "stack" (some 9) (omega arith) stack_call))

-- An access over the boundary of the trimmed heap's first page meets the hole.
access_call : (validate_access trimmed 0x8ff8 16 3).0 ≡ err Error.unmapped
unfolding validate_access
access_call = refl

validate_access_lem_example :
    IsAnswer process.mappings 3 0x8ff8 16 1 (validate_access process 0x8ff8 16 3)
validate_access_lem_example = validate_access_lem process 0x8ff8 16 3 process-IsValid
