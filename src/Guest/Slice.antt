-- ===== src/Guest/Slice.antt =====
-- The slices that `protect` and `deallocate` cut of a mapping, as mappings and as cells.
use rosa.Prelude.{
  some, if◌then◌else◌, ℕ, ◌+◌, ◌-◌, ◌%◌, ◌≤◌, ◌<◌, ◌≡◌, refl, ◌∙◌, inl, inr, true, ◌&&◌, List, [],
  ◌∷◌, arith, ltb, leb, get_elem?, drop, u64,
}
use rosa.Guest.Mapping.{Mapping, Permission, has_permission, slice, slice_bytes}
use rosa.Guest.Invariant.{Ordered-lower, Ordered, IsMapping, Fills}
use rosa.Guest.View.{cells, cell_of, covers}
use rosa.Prelude.{length-take, length-drop, get_elem?-take, get_elem?-drop}

slice_bytes-Fills :
    (bytes : List ℕ) (offset size total : ℕ)
    → offset + size ≤ total
    → Fills bytes total
    → Fills (slice_bytes bytes offset size) size
unfolding slice_bytes
slice_bytes-Fills [] offset size total h f = inl refl
slice_bytes-Fills (b ∷ bs) offset size total h (inl e) = cc
slice_bytes-Fills (b ∷ bs) offset size total h (inr e) =
    inr (
      omega
        (arith, e, length-take {0} size (drop offset (b ∷ bs)), length-drop {0} offset (b ∷ bs)))

get_elem?-slice_bytes :
    (bytes : List ℕ) (offset size i j : ℕ)
    → i < size
    → offset + i ≡ j
    → get_elem? (slice_bytes bytes offset size) i ≡ get_elem? bytes j
unfolding slice_bytes
get_elem?-slice_bytes [] offset size i j h e = refl
get_elem?-slice_bytes (b ∷ bs) offset size i j h e =
    get_elem?-take size (drop offset (b ∷ bs)) i h ∙ get_elem?-drop offset (b ∷ bs) i j e

-- A part of a mapping between page boundaries.
pub record IsPart (m : Mapping) (from to : ℕ) : Type 0 where
  pub from_in : m.base ≤ from
  pub to_in : to ≤ m.base + m.size
  pub not_empty : from < to
  pub from_aligned : from % 4096 ≡ 0
  pub to_aligned : to % 4096 ≡ 0

module _ (m : Mapping) (from to : ℕ) (current maximum : Permission) (good : IsMapping m)
    (part : IsPart m from to) where
  pub slice-IsMapping :
      has_permission maximum current ≡ true → IsMapping (slice m from to current maximum)
  unfolding slice
  slice-IsMapping p = record {
    not_empty = omega (arith, part.not_empty);
    base_aligned = part.from_aligned;
    size_aligned = omega (arith, part.from_aligned, part.to_aligned, part.not_empty);
    fits = omega (arith, part.not_empty, part.to_in, good.fits);
    permitted = p;
    bytes_fill =
        slice_bytes-Fills m.bytes (from - m.base) (to - from) m.size
          (omega (arith, part.from_in, part.to_in, part.not_empty)) good.bytes_fill;
    readable_fill =
        slice_bytes-Fills m.readable_bytes (from - m.base) (to - from) m.size
          (omega (arith, part.from_in, part.to_in, part.not_empty)) good.readable_fill;
  }

  pub cell_of-slice :
      (x : ℕ)
      → from ≤ x
      → x < to
      → cell_of (slice m from to current maximum) x
        ≡ record (cell_of m x) { permissions = current; maximum_permissions = maximum }
  unfolding slice cell_of
  cell_of-slice x p q = ground (
    arith,
    get_elem?-slice_bytes m.bytes (from - m.base) (to - from) (x - from) (x - m.base) (omega arith)
        (omega (arith, part.from_in)),
    get_elem?-slice_bytes m.readable_bytes (from - m.base) (to - from) (x - from) (x - m.base)
        (omega arith) (omega (arith, part.from_in)),
    offsets,
  )
    where
      offsets :
          u64 (u64 (m.file_data_offset + (from - m.base)) + (x - from))
          ≡ u64 (m.file_data_offset + (x - m.base))
      offsets = omega (arith, part.from_in)

  pub covers-slice : (x : ℕ) → covers (slice m from to current maximum) x ≡ leb from x && ltb x to
  unfolding slice covers
  covers-slice x = ground (arith, part.not_empty)

  -- A slice in front of a table: found in its range, and only there.
  pub cells-slice :
      (rest : List Mapping) (x : ℕ)
      → cells (slice m from to current maximum ∷ rest) x ≡ (
          if leb from x && ltb x to
          then some (record (cell_of m x) { permissions = current; maximum_permissions = maximum })
          else cells rest x)
  unfolding cells
  cells-slice rest x = ground (arith, covers-slice x, cell_of-slice x)

  pub Ordered-slice :
      (lo : ℕ) (rest : List Mapping)
      → has_permission maximum current ≡ true
      → lo ≤ from
      → Ordered to rest
      → Ordered lo (slice m from to current maximum ∷ rest)
  Ordered-slice lo rest p above v = (
    unfold slice in above,
    slice-IsMapping p,
    Ordered-lower _ to rest (unfold slice in omega (arith, part.not_empty)) v,
  )
