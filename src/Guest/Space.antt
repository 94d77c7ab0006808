-- ===== src/Guest/Space.antt =====
-- src/guest/AddressSpace.cpp: the address space's state, the creation of single mappings, and the
-- checks on a new one. An exception is an error value; every operation here throws before it
-- changes the space.
use rosa.Prelude.{
  refl, ◌≡◌, ℕ, zero, suc, ◌+◌, ◌-◌, ◌%◌, Bool, true, false, Option, none, some, List, [], ◌∷◌, ltb,
  ◌==◌, ◌||◌, not, if◌then◌else◌, u64, u64_max, get_elem?, length, replicate,
}
use rosa.Guest.Mapping.{
  Mapping, Permission, permission_none, guest_page_size, has_permission, is_executable, end_of,
  backing_of,
}
use Prim.Native.String.{String}

pub data Error : Type 0 where
  bad_alignment address_overflow exceeds_maximum overlaps_existing : Error
  file_bytes_exceed_size sparse_outside host_failure : Error
  batch_overlaps batch_overflow : Error
  unmapped permission_violation : Error
  count_overflow : Error
  -- Not an exception of the source: the fuel of a loop ran out.
  walk_out_of_fuel : Error

pub data Result {ℓ} (A : Type ℓ) : Type ℓ where
  ok : A → Result A
  err : Error → Result A

-- The rest of a function runs unless what stands before it has thrown.
abbrev pub ◌>>=◌ {a b} :
    {Value : Type a} {Answer : Type b}
    → (call : Result Value) → (Value → Result Answer)
    → Result Answer
(err thrown) >>= rest = err thrown
(ok value) >>= rest = rest value

infixl 5 ◌>>=◌ ◌>>◌
abbrev pub ◌>>◌ {a} :
    {Answer : Type a} → (check : Result (Unit {0})) → Result Answer → Result Answer
check >> rest = check >>= λ done. rest

-- if (failed) throw e;
abbrev pub throw_if : Bool → Error → Result (Unit {0})
throw_if true e = err e
throw_if false e = ok tt

-- A successful sequence: its first part succeeded, and so did the rest.
pub >>-eq-ok {ℓ} :
    {B : Type ℓ} (m : Result (Unit {0})) (k : Result B) {b : B}
    → (m >> k) ≡ ok b
    → (m ≡ ok tt) × (k ≡ ok b)
>>-eq-ok (ok tt) k h = (refl, h)
>>-eq-ok (err e) k h = cc

pub ok-injective {ℓ} : {A : Type ℓ} (a b : A) → ok a ≡ ok b → a ≡ b
ok-injective a b h = cc

pub record LookupEntry : Type 0 where
  pub base : ℕ
  pub end : ℕ
  pub index : ℕ
  pub valid : Bool

abbrev pub no_entry : LookupEntry
no_entry = record { base = 0; end = 0; index = 0; valid = false }

abbrev pub mapping_lookup_size : ℕ
mapping_lookup_size = 16

pub record AddressSpace : Type 0 where
  pub mappings : List Mapping
  pub mapping_lookup : List LookupEntry
  pub executable_version : ℕ

abbrev pub empty_lookup : List LookupEntry
empty_lookup = replicate mapping_lookup_size no_entry

abbrev pub empty_space : AddressSpace
empty_space = record { mappings = []; mapping_lookup = empty_lookup; executable_version = 0 }

unfoldable pub invalidate_mapping_lookup : AddressSpace → AddressSpace
invalidate_mapping_lookup s = record s { mapping_lookup = empty_lookup }

abbrev pub bump_if : Bool → AddressSpace → AddressSpace
bump_if true s = record s { executable_version = u64 (s.executable_version + 1) }
bump_if false s = s

-- std::lower_bound by base, on a list that is sorted by base: how many bases are below the value.
unfoldable pub lower_bound : List Mapping → ℕ → ℕ
lower_bound [] value = 0
lower_bound (m ∷ ms) value = if ltb m.base value then suc (lower_bound ms value) else 0

-- std::upper_bound by base.
unfoldable pub upper_bound : List Mapping → ℕ → ℕ
upper_bound [] value = 0
upper_bound (m ∷ ms) value = if ltb value m.base then 0 else suc (upper_bound ms value)

-- *(next - 1), where next is not begin.
unfoldable pub previous_of : List Mapping → ℕ → Option Mapping
previous_of ms zero = none
previous_of ms (suc i) = get_elem? ms i

-- vector::insert at a position.
unfoldable pub insert_at {ℓ} : {A : Type ℓ} → List A → ℕ → A → List A
insert_at xs zero a = a ∷ xs
insert_at [] (suc i) a = a ∷ []
insert_at (x ∷ xs) (suc i) a = x ∷ insert_at xs i a

-- The two neighbours of the place that a new range would take.
unfoldable pub overlaps : List Mapping → ℕ → ℕ → Bool
unfolding lower_bound previous_of
overlaps ms base size =
    let next = lower_bound ms base in
    elim (get_elem? ms next) [ none ↦ false | some m ↦ ltb m.base (u64 (base + size)) ]
    || elim (previous_of ms next) [ none ↦ false | some m ↦ ltb base (end_of m) ]

unfoldable pub validate_new_mapping :
    AddressSpace → ℕ → ℕ → Permission → Permission → Result (Unit {0})
unfolding overlaps has_permission
validate_new_mapping s base size permissions maximum = do
  throw_if (size == 0 || not (base % guest_page_size == 0) || not (size % guest_page_size == 0))
      bad_alignment
  throw_if (ltb (u64_max - size) base) address_overflow
  throw_if (not (has_permission maximum permissions)) exceeds_maximum
  throw_if (overlaps s.mappings base size) overlaps_existing

unfoldable pub insert_mapping : AddressSpace → Mapping → AddressSpace
unfolding lower_bound insert_at invalidate_mapping_lookup is_executable
insert_mapping s m =
    let position = lower_bound s.mappings m.base in
    bump_if (is_executable m.permissions)
      (invalidate_mapping_lookup (record s { mappings = insert_at s.mappings position m }))

unfoldable pub add_mapping :
    AddressSpace → ℕ → ℕ → Permission → Permission → List ℕ → String → Result AddressSpace
unfolding validate_new_mapping insert_mapping backing_of
add_mapping s base size permissions maximum initial label = do
  validate_new_mapping s base size permissions maximum
  ok (
      insert_mapping s (record {
        base = base;
        size = size;
        permissions = permissions;
        maximum_permissions = maximum;
        bytes = backing_of maximum size initial;
        file_bytes = none;
        file_data_offset = 0;
        lazy_file_transform = none;
        readable_bytes = [];
        label = label;
      }))

unfoldable pub map_segment :
    AddressSpace → ℕ → ℕ → Permission → Permission → List ℕ → String → Result AddressSpace
unfolding add_mapping
map_segment s base size permissions maximum file_bytes label = do
  throw_if (ltb size (length file_bytes)) file_bytes_exceed_size
  add_mapping s base size permissions maximum file_bytes label

-- A mapping over host memory; `none` stands for MAP_FAILED.
unfoldable pub insert_host_mapping :
    AddressSpace → ℕ → ℕ → Permission → Permission → String → Option ℕ → ℕ → Result AddressSpace
unfolding insert_mapping
insert_host_mapping s base size permissions maximum label none offset = err host_failure
insert_host_mapping s base size permissions maximum label (some host) offset = ok (
    insert_mapping s (record {
      base = base;
      size = size;
      permissions = permissions;
      maximum_permissions = maximum;
      bytes = [];
      file_bytes = some host;
      file_data_offset = offset;
      lazy_file_transform = none;
      readable_bytes = [];
      label = label;
    }))

-- `mmap` is what the host's anonymous mmap returns: a fresh handle, or `none` for MAP_FAILED.
unfoldable pub map_anonymous :
    AddressSpace → ℕ → ℕ → Permission → Permission → String → Option ℕ → Result AddressSpace
unfolding validate_new_mapping insert_mapping insert_host_mapping
map_anonymous s base size permissions maximum label mmap = do
  validate_new_mapping s base size permissions maximum
  if maximum == permission_none
      then ok (
          insert_mapping s (record {
            base = base;
            size = size;
            permissions = permissions;
            maximum_permissions = maximum;
            bytes = [];
            file_bytes = none;
            file_data_offset = 0;
            lazy_file_transform = none;
            readable_bytes = [];
            label = label;
          }))
      else insert_host_mapping s base size permissions maximum label mmap 0
