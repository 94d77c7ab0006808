-- ===== src/Guest/Segments.antt =====
-- The segments that `mapSegment` and `mapSegments` put in (src/guest/AddressSpace.cpp and
-- src/guest/MappingBatch.cpp), address by address.
use Prim.Native.String.{String}
use rosa.Prelude.{
  ℕ, zero, suc, ◌+◌, ◌-◌, ◌≤◌, ◌<◌, ◌≡◌, refl, ap, inl, inr, Bool, Option, none, some, List, [],
  ◌∷◌, ◌++◌, ◌&&◌, arith, ltb, leb, ◌==◌, if◌then◌else◌, Bool-cases, length, get_elem?, replicate,
  u64, u64_max, true,
}
use rosa.Guest.Mapping.{Permission, is_executable, backing_of}
use rosa.Guest.Space.{AddressSpace, ok, file_bytes_exceed_size, throw_if, >>-eq-ok, map_segment}
use rosa.Guest.Invariant.{IsValid}
use rosa.Guest.View.{Cell, cell_of, covers, view}
use rosa.Guest.Create.{bytes_mapping, map_segment-Creates}

-- The addresses of a range.
abbrev pub within : (base size x : ℕ) → Bool
within base size x = leb base x && ltb x (base + size)

-- The byte of a segment at an offset within its size: its own bytes, and zeros after them. A segment
-- that can never be accessed has no bytes.
abbrev pub segment_byte : (maximum : Permission) (initial : List ℕ) (offset : ℕ) → Option ℕ
segment_byte maximum initial offset =
    if maximum == 0
    then none
    else (if ltb offset (length initial) then get_elem? initial offset else some 0)

-- The cell of a segment at an address of it.
abbrev pub segment_cell :
    (base : ℕ) (permissions maximum : Permission) (initial : List ℕ) (label : String) (x : ℕ) → Cell
segment_cell base permissions maximum initial label x = record {
  permissions = permissions;
  maximum_permissions = maximum;
  byte = segment_byte maximum initial (x - base);
  host = none;
  host_offset = u64 (x - base);
  lazy_file_transform = none;
  readable = none;
  label = label;
}

get_elem?-replicate : (n i : ℕ) → i < n → get_elem? {A = ℕ} (replicate n 0) i ≡ some 0
get_elem?-replicate zero i h = absurd (omega arith)
get_elem?-replicate (suc n) zero h = refl
get_elem?-replicate (suc n) (suc i) h = get_elem?-replicate n i (omega arith)

get_elem?-append_zeros :
    (xs : List ℕ) (n i : ℕ)
    → i < length xs + n
    → get_elem? (xs ++ replicate n 0) i ≡ (if ltb i (length xs) then get_elem? xs i else some 0)
get_elem?-append_zeros [] n i h = ground (arith, get_elem?-replicate n i)
get_elem?-append_zeros (x ∷ xs) n zero h = ground arith
get_elem?-append_zeros (x ∷ xs) n (suc i) h = ground (arith, get_elem?-append_zeros xs n i)

backing_of-segment_byte :
    (size : ℕ) (maximum : Permission) (initial : List ℕ) (offset : ℕ)
    → length initial ≤ size
    → offset < size
    → get_elem? (backing_of maximum size initial) offset ≡ segment_byte maximum initial offset
unfolding backing_of
backing_of-segment_byte size maximum initial offset fit inside = elim (Bool-cases (maximum == 0)) [
  | inl e ↦ rw e refl
  | inr e ↦ rw e (get_elem?-append_zeros initial (size - length initial) offset (omega arith))
]

pub cell_of-segment_cell :
    (base size : ℕ) (permissions maximum : Permission) (initial : List ℕ) (label : String) (x : ℕ)
    → length initial ≤ size
    → base ≤ x
    → x < base + size
    → cell_of
        (bytes_mapping base size permissions maximum (backing_of maximum size initial) label)
        x
      ≡ segment_cell base permissions maximum initial label x
unfolding cell_of
cell_of-segment_cell base size permissions maximum initial label x fit low high =
    let from_start : 0 + (x - base) ≡ x - base = omega arith in
    rw (backing_of-segment_byte size maximum initial (x - base) fit (omega arith), from_start) refl

-- `s'` is `s` with a segment put in a free range: valid, with the segment's cells in the range, the same
-- elsewhere, and with a new version of the executable bytes exactly when the segment is executable.
pub record IsSegment (s : AddressSpace) (base size : ℕ) (permissions maximum : Permission)
    (initial : List ℕ) (label : String) (s' : AddressSpace) : Type 0 where
  pub valid : IsValid s'
  pub free : (x : ℕ) → within base size x ≡ true → view s x ≡ none
  pub holds :
      (x : ℕ)
      → view s' x ≡ (
          if within base size x
          then some (segment_cell base permissions maximum initial label x)
          else view s x)
  pub version :
      s'.executable_version
      ≡ (if is_executable permissions then u64 (s.executable_version + 1) else s.executable_version)

-- A segment, of a size within 64 bits, that a valid space creates stands in its range, which was free,
-- with its permissions, maximum permissions and label, and holds its bytes there, filled up with zeros,
-- or no bytes if its maximum permissions are none; the rest of the space is as it was, the space stays
-- valid, and the version of the executable bytes is a new one exactly when the segment is executable.
pub map_segment-IsSegment :
    (s s' : AddressSpace) (base size : ℕ) (permissions maximum : Permission) (initial : List ℕ)
    (label : String)
    → IsValid s
    → size ≤ u64_max
    → map_segment s base size permissions maximum initial label ≡ ok s'
    → IsSegment s base size permissions maximum initial label s'
unfolding map_segment covers
map_segment-IsSegment s s' base size permissions maximum initial label v small h =
    let (fit, made) = >>-eq-ok (throw_if (ltb size (length initial)) file_bytes_exceed_size) _ h in
    let c = map_segment-Creates s base size permissions maximum label v small initial h in
    record {
      valid = c.valid;
      free = c.free;
      holds = λ x. elim (Bool-cases (within base size x)) [
        | inl inside ↦
            rw (c.holds x, inside)
              (ap some (
                cell_of-segment_cell base size permissions maximum initial label x (ground arith)
                  (ground arith) (ground arith)))
        | inr outside ↦ rw (c.holds x, outside) refl
      ];
      version = c.version;
    }
