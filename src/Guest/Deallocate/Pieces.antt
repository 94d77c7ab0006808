-- ===== src/Guest/Deallocate/Pieces.antt =====
-- The pieces that `deallocate` leaves of one mapping, as cells.
use rosa.Prelude.{
  ℕ, ◌+◌, ◌%◌, ◌<◌, max, ◌≡◌, inl, inr, true, ◌&&◌, ◌||◌, Option, none, some, List, [], ◌∷◌, ◌++◌,
  arith, ltb, leb, if◌then◌else◌, Bool-cases,
}
use mathlib.Core.List.{append_assoc}
use rosa.Guest.Mapping.{Mapping}
use rosa.Guest.Invariant.{Ordered, IsMapping, end_of-eq, Ordered-lower}
use rosa.Guest.View.{Cell, cell_of, covers, cells, cells-below}
use rosa.Guest.Slice.{IsPart, Ordered-slice, cells-slice}
use rosa.Guest.Replace.{IsReplacement, keep-IsReplacement}
use rosa.Guest.Deallocate.{keep_slice, deallocate_pieces}

-- What `deallocate` makes of the cell at an address.
unfoldable pub deallocated : ℕ → ℕ → ℕ → Cell → Option Cell
deallocated start end x c = if leb start x && ltb x end then none else some c

module _ (start end : ℕ) (m : Mapping) (start_aligned : start % 4096 ≡ 0)
    (end_aligned : end % 4096 ≡ 0) (good : IsMapping m) (proper : start < end) where
  left-IsPart : m.base < start → start < m.base + m.size → IsPart m m.base start
  left-IsPart h k = record {
    from_in = omega arith;
    to_in = omega arith;
    not_empty = h;
    from_aligned = good.base_aligned;
    to_aligned = start_aligned;
  }

  right-IsPart : m.base < end → end < m.base + m.size → IsPart m end (m.base + m.size)
  right-IsPart h k = record {
    from_in = omega arith;
    to_in = omega arith;
    not_empty = k;
    from_aligned = end_aligned;
    to_aligned = omega (arith, good.base_aligned, good.size_aligned);
  }

  abbrev left : List Mapping
  left = if ltb m.base start then keep_slice m m.base start ∷ [] else []

  abbrev right : List Mapping
  right = if ltb end (m.base + m.size) then keep_slice m end (m.base + m.size) ∷ [] else []

  module _ (start_in : start < m.base + m.size) (end_in : m.base < end) where
    pieces_lem : deallocate_pieces start end m ≡ left ++ right
    unfolding deallocate_pieces
    pieces_lem = rw (end_of-eq good) (ground arith)

    right-Ordered :
        (rest : List Mapping)
        → Ordered (m.base + m.size) rest
        → Ordered (max m.base start) (right ++ rest)
    right-Ordered rest v = elim (Bool-cases (ltb end (m.base + m.size))) [
      | inl e ↦ rw e (
          Ordered-slice m end (m.base + m.size) m.permissions m.maximum_permissions good
            (right-IsPart end_in (ground arith)) (max m.base start) rest good.permitted
            (omega arith) v)
      | inr e ↦ rw e (
          Ordered-lower (max m.base start) (m.base + m.size) rest (omega (arith, good.not_empty)) v)
    ]

    all-Ordered :
        (rest : List Mapping)
        → Ordered (m.base + m.size) rest
        → Ordered m.base (left ++ (right ++ rest))
    all-Ordered rest v = elim (Bool-cases (ltb m.base start)) [
      | inl e ↦ rw e (
          Ordered-slice m m.base start m.permissions m.maximum_permissions good
            (left-IsPart (ground arith) start_in) m.base (right ++ rest) good.permitted
            (omega arith)
            (Ordered-lower start (max m.base start) (right ++ rest) (omega arith)
              (right-Ordered rest v)))
      | inr e ↦ rw e (
          Ordered-lower m.base (max m.base start) (right ++ rest) (omega arith)
            (right-Ordered rest v))
    ]

    cells-right :
        (rest : List Mapping) (x : ℕ)
        → cells (right ++ rest) x
          ≡ (if leb end x && ltb x (m.base + m.size) then some (cell_of m x) else cells rest x)
    unfolding cell_of
    cells-right rest x = elim (Bool-cases (ltb end (m.base + m.size))) [
      | inl e ↦ rw e (
          cells-slice m end (m.base + m.size) m.permissions m.maximum_permissions good
            (right-IsPart end_in (ground arith)) rest x)
      | inr e ↦ rw e (ground arith)
    ]

    cells-all :
        (rest : List Mapping) (x : ℕ)
        → Ordered (m.base + m.size) rest
        → cells (left ++ (right ++ rest)) x
          ≡ (if covers m x then deallocated start end x (cell_of m x) else cells rest x)
    unfolding cell_of covers deallocated
    cells-all rest x v = elim (Bool-cases (ltb m.base start)) [
      | inl e ↦ rw e (
          ground (
            arith,
            cells-slice m m.base start m.permissions m.maximum_permissions good
                (left-IsPart (ground arith) start_in) (right ++ rest) x,
            cells-right rest x,
            cells-below (m.base + m.size) rest x v,
          ))
      | inr e ↦ rw e (ground (arith, cells-right rest x, cells-below (m.base + m.size) rest x v))
    ]

  pub deallocate_pieces-IsReplacement :
      IsReplacement (deallocated start end) m (deallocate_pieces start end m)
  deallocate_pieces-IsReplacement =
      elim (Bool-cases (leb (m.base + m.size) start || leb end m.base)) [
        | inl e ↦ rw (outside e) (
            keep-IsReplacement (deallocated start end) m good
              (λ x inside. unfold deallocated covers in ground arith))
        | inr e ↦ rw (pieces_lem (ground arith) (ground arith)) (record {
          ordered = λ rest v. rw append_assoc (all-Ordered (ground arith) (ground arith) rest v);
          held = λ rest x v. rw append_assoc (cells-all (ground arith) (ground arith) rest x v);
          few = ground arith;
        })
      ]
    where
      outside :
          (leb (m.base + m.size) start || leb end m.base) ≡ true
          → deallocate_pieces start end m ≡ m ∷ []
      outside e = unfold deallocate_pieces in ground (arith, end_of-eq good)
