-- ===== src/Guest/Protect/Pieces.antt =====
-- The pieces that `protect` puts in place of one mapping, as cells.
use rosa.Prelude.{
  ℕ, ◌+◌, ◌%◌, ◌≤◌, ◌<◌, min, max, ◌≡◌, ◌⊎◌, inl, inr, Bool, true, ◌&&◌, Option, some, List, [],
  ◌∷◌, ◌++◌, arith, ltb, leb, if◌then◌else◌, Bool-cases,
}
use mathlib.Core.List.{append_assoc}
use rosa.Guest.Invariant.{Ordered-lower}
use rosa.Prelude.{◌++◌, ◌∷◌, [], leb, ltb, min, max, Bool-cases}
use rosa.Guest.Mapping.{Mapping, Permission, has_permission, slice}
use rosa.Guest.Invariant.{Ordered, IsMapping, end_of-eq}
use rosa.Guest.View.{Cell, cell_of, covers, cells}
use rosa.Guest.Slice.{IsPart, Ordered-slice, cells-slice}
use rosa.Guest.Replace.{IsReplacement}
use rosa.Guest.Protect.{protect_pieces}

-- The new maximum permissions of a protected cell.
abbrev pub new_maximum : Bool → Permission → Permission → Permission
new_maximum private_copy permissions maximum = if private_copy then permissions else maximum

-- What `protect` makes of the cell at an address.
unfoldable pub protected : ℕ → ℕ → Permission → Bool → ℕ → Cell → Option Cell
protected start end permissions private_copy x c =
    if leb start x && ltb x end
    then some (record c {
      permissions = permissions;
      maximum_permissions = new_maximum private_copy permissions c.maximum_permissions;
    })
    else some c

aligned_max : (a b : ℕ) → a % 4096 ≡ 0 → b % 4096 ≡ 0 → max a b % 4096 ≡ 0
aligned_max a b p q = omega arith

aligned_min : (a b : ℕ) → a % 4096 ≡ 0 → b % 4096 ≡ 0 → min a b % 4096 ≡ 0
aligned_min a b p q = omega arith

module _ (start end : ℕ) (permissions : Permission) (private_copy : Bool) (m : Mapping)
    (start_aligned : start % 4096 ≡ 0) (end_aligned : end % 4096 ≡ 0) (good : IsMapping m) where
  abbrev middle : Mapping
  middle =
      slice m (max m.base start) (min (m.base + m.size) end) permissions
        (new_maximum private_copy permissions m.maximum_permissions)

  -- A mapping outside the range stays as it is.
  pub protect_pieces-outside :
      (m.base + m.size ≤ start) ⊎ (end ≤ m.base)
      → protect_pieces start end permissions private_copy m ≡ m ∷ []
  unfolding protect_pieces
  protect_pieces-outside out = ground (arith, end_of-eq good)

  module _ (start_in : start < m.base + m.size) (end_in : m.base < end) (proper : start < end)
      (allowed : has_permission
          (new_maximum private_copy permissions m.maximum_permissions)
          permissions
        ≡ true) where
    middle-IsPart : IsPart m (max m.base start) (min (m.base + m.size) end)
    middle-IsPart = record {
      from_in = omega arith;
      to_in = omega arith;
      not_empty = omega (arith, good.not_empty);
      from_aligned = aligned_max m.base start good.base_aligned start_aligned;
      to_aligned =
          aligned_min (m.base + m.size) end (omega (arith, good.base_aligned, good.size_aligned))
            end_aligned;
    }

    left-IsPart : m.base < start → IsPart m m.base start
    left-IsPart h = record {
      from_in = omega arith;
      to_in = omega arith;
      not_empty = h;
      from_aligned = good.base_aligned;
      to_aligned = start_aligned;
    }

    right-IsPart : end < m.base + m.size → IsPart m (min (m.base + m.size) end) (m.base + m.size)
    right-IsPart h = record {
      from_in = omega arith;
      to_in = omega arith;
      not_empty = omega arith;
      from_aligned = middle-IsPart.to_aligned;
      to_aligned = omega (arith, good.base_aligned, good.size_aligned);
    }

    abbrev left : List Mapping
    left =
        if ltb m.base start
        then slice m m.base start m.permissions m.maximum_permissions ∷ []
        else []

    abbrev right : List Mapping
    right =
        if ltb (min (m.base + m.size) end) (m.base + m.size)
        then slice m (min (m.base + m.size) end) (m.base + m.size) m.permissions
            m.maximum_permissions
          ∷ []
        else []

    pieces_lem : protect_pieces start end permissions private_copy m ≡ left ++ middle ∷ right
    unfolding protect_pieces
    pieces_lem = rw (end_of-eq good) (ground arith)

    right-Ordered :
        (rest : List Mapping)
        → Ordered (m.base + m.size) rest
        → Ordered (min (m.base + m.size) end) (right ++ rest)
    right-Ordered rest v = elim (Bool-cases (ltb (min (m.base + m.size) end) (m.base + m.size))) [
      | inl e ↦ rw e (
          Ordered-slice m (min (m.base + m.size) end) (m.base + m.size) m.permissions
            m.maximum_permissions good (right-IsPart (ground arith)) _ rest good.permitted
            (omega arith) v)
      | inr e ↦ rw e (Ordered-lower _ (m.base + m.size) rest (omega arith) v)
    ]

    middle-Ordered :
        (rest : List Mapping)
        → Ordered (m.base + m.size) rest
        → Ordered (max m.base start) (middle ∷ right ++ rest)
    middle-Ordered rest v =
        Ordered-slice m (max m.base start) (min (m.base + m.size) end) permissions
          (new_maximum private_copy permissions m.maximum_permissions) good middle-IsPart _
          (right ++ rest) allowed (omega arith) (right-Ordered rest v)

    all-Ordered :
        (rest : List Mapping)
        → Ordered (m.base + m.size) rest
        → Ordered m.base (left ++ middle ∷ (right ++ rest))
    all-Ordered rest v = elim (Bool-cases (ltb m.base start)) [
      | inl e ↦ rw e (
          Ordered-slice m m.base start m.permissions m.maximum_permissions good
            (left-IsPart (ground arith)) m.base (middle ∷ right ++ rest) good.permitted
            (omega arith)
            (Ordered-lower start (max m.base start) (middle ∷ (right ++ rest)) (omega arith)
              (middle-Ordered rest v)))
      | inr e ↦ rw e (
          Ordered-lower m.base (max m.base start) (middle ∷ (right ++ rest)) (omega arith)
            (middle-Ordered rest v))
    ]

    cells-right :
        (rest : List Mapping) (x : ℕ)
        → cells (right ++ rest) x ≡ (
            if leb (min (m.base + m.size) end) x && ltb x (m.base + m.size)
            then some (cell_of m x)
            else cells rest x)
    unfolding cell_of
    cells-right rest x = elim (Bool-cases (ltb (min (m.base + m.size) end) (m.base + m.size))) [
      | inl e ↦ rw e (
          cells-slice m (min (m.base + m.size) end) (m.base + m.size) m.permissions
            m.maximum_permissions good (right-IsPart (ground arith)) rest x)
      | inr e ↦ rw e (ground arith)
    ]

    cells-all :
        (rest : List Mapping) (x : ℕ)
        → cells (left ++ middle ∷ (right ++ rest)) x ≡ (
            if covers m x
            then protected start end permissions private_copy x (cell_of m x)
            else cells rest x)
    unfolding cell_of covers protected
    cells-all rest x = elim (Bool-cases (ltb m.base start)) [
      | inl e ↦ rw e (
          ground (
            arith,
            cells-slice m m.base start m.permissions m.maximum_permissions good
                (left-IsPart (ground arith)) (middle ∷ right ++ rest) x,
            cells-slice m (max m.base start) (min (m.base + m.size) end) permissions
                (new_maximum private_copy permissions m.maximum_permissions) good middle-IsPart
                (right ++ rest) x,
            cells-right rest x,
          ))
      | inr e ↦ rw e (
          ground (
            arith,
            cells-slice m (max m.base start) (min (m.base + m.size) end) permissions
                (new_maximum private_copy permissions m.maximum_permissions) good middle-IsPart
                (right ++ rest) x,
            cells-right rest x,
          ))
    ]

    pub protect_pieces-IsReplacement :
        IsReplacement
          (protected start end permissions private_copy)
          m
          (protect_pieces start end permissions private_copy m)
    protect_pieces-IsReplacement = rw pieces_lem (record {
      ordered = λ rest v. rw (append_assoc) (all-Ordered rest v);
      held = λ rest x v. rw (append_assoc) (cells-all rest x);
      few = ground arith;
    })
