-- ===== src/Guest/Create.antt =====
-- `mapSegment`, `mapAnonymous` and `addMapping` (src/guest/AddressSpace.cpp) on a valid space.
use Prim.Native.String.{[], String}
use rosa.Prelude.{
  [], subst, ltb, ◌↔◌, Option, none, length-replicate, ◌-◌, replicate, length-append, ◌==◌, length,
  u64, List, ℕ, ◌+◌, ◌%◌, ◌≤◌, ◌<◌, ◌≡◌, refl, inl, inr, true, false, some, arith, if◌then◌else◌,
  Bool-cases, u64_max,
}
use rosa.Guest.Mapping.{
  permission_none, backing_of, Mapping, Permission, has_permission, is_executable,
}
use rosa.Guest.Space.{
  insert_host_mapping, ok-injective, file_bytes_exceed_size, throw_if, >>-eq-ok, map_anonymous,
  map_segment, AddressSpace, ok, overlaps, validate_new_mapping, insert_mapping, insert_at,
  lower_bound,
}
use rosa.Guest.Invariant.{Fills, Ordered, IsMapping, IsValid, empty_lookup-IsCoherent}
use rosa.Guest.View.{cells, covers, cell_of, view}
use rosa.Guest.Insert.{IsFree-overlaps, overlaps-IsFree, IsFree, insert-Ordered, cells-insert}

-- A range that a new mapping may take.
pub record IsRange (base size : ℕ) (permissions maximum : Permission) : Type 0 where
  pub not_empty : 0 < size
  pub base_aligned : base % 4096 ≡ 0
  pub size_aligned : size % 4096 ≡ 0
  pub fits : base + size < 0x1_0000_0000_0000_0000
  pub permitted : has_permission maximum permissions ≡ true

module _ (s : AddressSpace) (base size : ℕ) (permissions maximum : Permission)
    (small : size ≤ u64_max) where
  pub validate_sound :
      validate_new_mapping s base size permissions maximum ≡ ok tt
      → IsRange base size permissions maximum × (overlaps s.mappings base size ≡ false)
  unfolding validate_new_mapping
  validate_sound h = ground arith

  pub validate_complete :
      IsRange base size permissions maximum
      → overlaps s.mappings base size ≡ false
      → validate_new_mapping s base size permissions maximum ≡ ok tt
  unfolding validate_new_mapping
  validate_complete r free = ground arith

pub insert_mapping-IsValid :
    (s : AddressSpace) (m : Mapping)
    → IsValid s
    → IsMapping m
    → overlaps s.mappings m.base m.size ≡ false
    → IsValid (insert_mapping s m)
unfolding insert_mapping
insert_mapping-IsValid s m v good free = elim (Bool-cases (is_executable m.permissions)) [
  | inl e ↦ rw e (record { ordered = fits; sixteen = refl; coherent = empty_lookup-IsCoherent _ })
  | inr e ↦ rw e (record { ordered = fits; sixteen = refl; coherent = empty_lookup-IsCoherent _ })
]
  where
    fits : Ordered 0 (insert_at s.mappings (lower_bound s.mappings m.base) m)
    fits = insert-Ordered 0 s.mappings m good (omega arith) v.ordered free

pub view-insert_mapping :
    (s : AddressSpace) (m : Mapping) (x : ℕ)
    → IsValid s
    → IsMapping m
    → overlaps s.mappings m.base m.size ≡ false
    → view (insert_mapping s m) x ≡ (if covers m x then some (cell_of m x) else view s x)
unfolding insert_mapping view
view-insert_mapping s m x v good free = elim (Bool-cases (is_executable m.permissions)) [
  | inl e ↦ rw e found
  | inr e ↦ rw e found
]
  where
    found :
        cells (insert_at s.mappings (lower_bound s.mappings m.base) m) x
        ≡ (if covers m x then some (cell_of m x) else cells s.mappings x)
    found =
        cells-insert 0 s.mappings m x
          (insert-Ordered 0 s.mappings m good (omega arith) v.ordered free)

-- `s'` is `s` with the mapping `m` put in a free place: valid, the same outside `m`, and with a
-- new version of the executable bytes exactly when `m` is executable.
pub record Creates (s s' : AddressSpace) (m : Mapping) : Type 0 where
  pub valid : IsValid s'
  pub free : (x : ℕ) → covers m x ≡ true → view s x ≡ none
  pub holds : (x : ℕ) → view s' x ≡ (if covers m x then some (cell_of m x) else view s x)
  pub version : s'.executable_version ≡ (
      if is_executable m.permissions then u64 (s.executable_version + 1) else s.executable_version)

pub insert_mapping-Creates :
    (s : AddressSpace) (m : Mapping)
    → IsValid s
    → IsMapping m
    → overlaps s.mappings m.base m.size ≡ false
    → Creates s (insert_mapping s m) m
insert_mapping-Creates s m v good free = record {
  valid = insert_mapping-IsValid s m v good free;
  free = λ x inside.
      unfold view in
      overlaps-IsFree 0 m.base m.size s.mappings good.fits v.ordered free x
        (unfold covers in ground arith) (unfold covers in ground arith);
  holds = λ x. view-insert_mapping s m x v good free;
  version = unfold insert_mapping in ground arith;
}

abbrev pub bytes_mapping : ℕ → ℕ → Permission → Permission → List ℕ → String → Mapping
bytes_mapping base size permissions maximum bytes label = record {
  base = base;
  size = size;
  permissions = permissions;
  maximum_permissions = maximum;
  bytes = bytes;
  file_bytes = none;
  file_data_offset = 0;
  lazy_file_transform = none;
  readable_bytes = [];
  label = label;
}

abbrev pub host_mapping : ℕ → ℕ → Permission → Permission → ℕ → String → Mapping
host_mapping base size permissions maximum host label =
    record (bytes_mapping base size permissions maximum [] label) { file_bytes = some host }

pub backing_of-Fills :
    (maximum : Permission) (size : ℕ) (initial : List ℕ)
    → length initial ≤ size
    → Fills (backing_of maximum size initial) size
unfolding backing_of
backing_of-Fills maximum size initial h = elim (Bool-cases (maximum == permission_none)) [
  | inl e ↦ rw e (inl refl)
  | inr e ↦ rw e (
      inr (
        omega (
          arith,
          length-append {0} {A = ℕ} initial (replicate (size - length initial) 0),
          length-replicate {0} {A = ℕ} (size - length initial) 0,
        )))
]

module _ (s : AddressSpace) (base size : ℕ) (permissions maximum : Permission) (label : String)
    (v : IsValid s) (small : size ≤ u64_max) where
  made :
      (bytes : List ℕ) (host : Option ℕ)
      → Fills bytes size
      → IsRange base size permissions maximum
      → IsMapping
          (record (bytes_mapping base size permissions maximum bytes label) { file_bytes = host })
  made bytes host fill r = record {
    not_empty = r.not_empty;
    base_aligned = r.base_aligned;
    size_aligned = r.size_aligned;
    fits = r.fits;
    permitted = r.permitted;
    bytes_fill = fill;
    readable_fill = inl refl;
  }

  -- On a valid space, a segment of a size within 64 bits is created exactly when its bytes fit,
  -- its range is aligned and within 64 bits, its permissions are within their maximum, and no
  -- address of it is mapped.
  pub map_segment_iff :
      (initial : List ℕ)
      → ((s' : AddressSpace) × (map_segment s base size permissions maximum initial label ≡ ok s'))
        ↔ ((length initial ≤ size)
            × IsRange base size permissions maximum
            × IsFree s.mappings base size)
  unfolding map_segment
  map_segment_iff initial = (forth, back)
    where
      forth :
          ((s' : AddressSpace) × (map_segment s base size permissions maximum initial label
              ≡ ok s'))
          → (length initial ≤ size)
            × IsRange base size permissions maximum
            × IsFree s.mappings base size
      forth (s', h) =
          let (fit, h') =
            >>-eq-ok (throw_if (ltb size (length initial)) file_bytes_exceed_size) _ h in
          let (checked, h'') =
            >>-eq-ok (validate_new_mapping s base size permissions maximum) _ h' in
          let (range, free) = validate_sound s base size permissions maximum small checked in
          (ground arith, range, overlaps-IsFree 0 base size s.mappings range.fits v.ordered free)

      back :
          (length initial ≤ size)
            × IsRange base size permissions maximum
            × IsFree s.mappings base size
          → (s' : AddressSpace) × (map_segment s base size permissions maximum initial label
              ≡ ok s')
      back (fit, range, free) = (
        insert_mapping s
            (bytes_mapping base size permissions maximum (backing_of maximum size initial) label),
        ground (
          arith,
          validate_complete s base size permissions maximum small range
              (IsFree-overlaps base size s.mappings range.not_empty range.fits v.ordered free),
        ),
      )

  -- A segment is created as the mapping that `add_mapping` makes of it.
  pub map_segment-Creates :
      (initial : List ℕ) {s' : AddressSpace}
      → map_segment s base size permissions maximum initial label ≡ ok s'
      → Creates s s'
          (bytes_mapping base size permissions maximum (backing_of maximum size initial) label)
  unfolding map_segment
  map_segment-Creates initial {s'} h =
      let (fit, h') = >>-eq-ok (throw_if (ltb size (length initial)) file_bytes_exceed_size) _ h in
      let (checked, h'') = >>-eq-ok (validate_new_mapping s base size permissions maximum) _ h' in
      let (range, free) = validate_sound s base size permissions maximum small checked in
      subst
        (λ t.
          Creates s t
            (bytes_mapping base size permissions maximum (backing_of maximum size initial) label))
        (ok-injective _ s' h'')
        (insert_mapping-Creates s _ v
          (made _ none (backing_of-Fills maximum size initial (ground arith)) range) free)

  from_host :
      (mmap : Option ℕ) {s' : AddressSpace}
      → IsRange base size permissions maximum
      → overlaps s.mappings base size ≡ false
      → insert_host_mapping s base size permissions maximum label mmap 0 ≡ ok s'
      → Creates s s'
          (record (bytes_mapping base size permissions maximum [] label) { file_bytes = mmap })
  unfolding insert_host_mapping
  from_host none range free h = cc
  from_host (some host) {s'} range free h =
      subst
        (λ t. Creates s t (record (bytes_mapping base size permissions maximum [] label) {
          file_bytes = some host;
        }))
        (ok-injective _ s' h)
        (insert_mapping-Creates s _ v (made [] (some host) (inl refl) range) free)

  -- An anonymous reservation, of a size within 64 bits, that a valid space creates stands over the
  -- host memory that mmap gave, or over none if its maximum permissions are none; the rest of the
  -- space is as it was.
  pub map_anonymous-Creates :
      (mmap : Option ℕ) {s' : AddressSpace}
      → map_anonymous s base size permissions maximum label mmap ≡ ok s'
      → Creates s s' (record (bytes_mapping base size permissions maximum [] label) {
        file_bytes = if maximum == permission_none then none else mmap;
      })
  unfolding map_anonymous
  map_anonymous-Creates mmap {s'} h =
      let (checked, h') = >>-eq-ok (validate_new_mapping s base size permissions maximum) _ h in
      let (range, free) = validate_sound s base size permissions maximum small checked in
      elim (Bool-cases (maximum == permission_none)) [
        | inl e ↦ rw e (
            subst (λ t. Creates s t (bytes_mapping base size permissions maximum [] label))
              (ok-injective _ s' (rw e at h'))
              (insert_mapping-Creates s _ v (made [] none (inl refl) range) free))
        | inr e ↦ rw e (from_host mmap range free (rw e at h'))
      ]
