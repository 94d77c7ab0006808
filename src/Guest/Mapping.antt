-- ===== src/Guest/Mapping.antt =====
-- src/guest/AddressSpace.h and AddressSpace.cpp: permissions, one mapping, and the slices that
-- `protect` and `deallocate` cut from it. The host memory behind `file_bytes` and the lazy page
-- transform are shared objects of the source; a mapping holds their handles, and slices share them.
use rosa.Prelude.{
  ℕ, ◌+◌, ◌-◌, Bool, false, Option, List, [], ◌∷◌, leb, ltb, ◌==◌, ◌||◌, if◌then◌else◌, u64,
  bit_and, take, drop, replicate, length, ◌++◌,
}
use rosa.Prelude.Bits.{bit_and_self}
use rosa.Prelude.{◌≡◌, true, arith}
use Prim.Native.String.{String}

abbrev pub guest_page_size : ℕ
guest_page_size = 4096

-- A permission is its byte of flag bits.
abbrev pub Permission : Type 0
Permission = ℕ

abbrev pub permission_none : Permission
permission_none = 0

abbrev pub permission_read : Permission
permission_read = 1

abbrev pub permission_write : Permission
permission_write = 2

abbrev pub permission_execute : Permission
permission_execute = 4

unfoldable pub has_permission : Permission → Permission → Bool
has_permission actual required = bit_and actual required == required

unfoldable pub is_executable : Permission → Bool
unfolding has_permission
is_executable permissions = has_permission permissions permission_execute

-- `bytes` and `readable_bytes` are empty or as long as the mapping.
pub record Mapping : Type 0 where
  pub base : ℕ
  pub size : ℕ
  pub permissions : Permission
  pub maximum_permissions : Permission
  pub bytes : List ℕ
  pub file_bytes : Option ℕ
  pub file_data_offset : ℕ
  pub lazy_file_transform : Option ℕ
  pub readable_bytes : List ℕ
  pub label : String

-- base.value + size, as a 64-bit sum.
abbrev pub end_of : Mapping → ℕ
end_of m = u64 (m.base + m.size)

unfoldable pub range_contains : ℕ → ℕ → ℕ → ℕ → Bool
range_contains base mapping_size address access_size =
    if ltb address base || ltb mapping_size access_size
    then false
    else leb (address - base) (mapping_size - access_size)

-- bytes.assign(begin + offset, begin + offset + size), where the source is not empty.
unfoldable pub slice_bytes : List ℕ → ℕ → ℕ → List ℕ
slice_bytes [] offset size = []
slice_bytes (b ∷ bs) offset size = take size (drop offset (b ∷ bs))

-- The lambda `slice` of `protect`; `deallocate` has the same with the source's permissions.
unfoldable pub slice : Mapping → ℕ → ℕ → Permission → Permission → Mapping
unfolding slice_bytes
slice source slice_start slice_end current maximum =
    let offset = slice_start - source.base in
    let slice_size = slice_end - slice_start in
    record {
      base = slice_start;
      size = slice_size;
      permissions = current;
      maximum_permissions = maximum;
      bytes = slice_bytes source.bytes offset slice_size;
      file_bytes = source.file_bytes;
      file_data_offset = u64 (source.file_data_offset + offset);
      lazy_file_transform = source.lazy_file_transform;
      readable_bytes = slice_bytes source.readable_bytes offset slice_size;
      label = source.label;
    }

-- backing.resize(size) and the copy of the initial bytes to its front.
unfoldable pub backing_of : Permission → ℕ → List ℕ → List ℕ
backing_of maximum size initial =
    if maximum == permission_none then [] else initial ++ replicate (size - length initial) 0

-- A permission contains itself.
pub has_permission_self : (p : Permission) → has_permission p p ≡ true
unfolding has_permission
has_permission_self p = rw bit_and_self (ground arith)
