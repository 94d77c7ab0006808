-- ===== src/Guest/Insert.antt =====
-- Creating mappings in an address space: where a new range fits, and the table it makes.
use rosa.Prelude.{
  zero, Option-cases, suc, u64, none, ◌≢◌, ℕ, ◌+◌, ◌≤◌, ◌<◌, ◌≡◌, refl, inl, inr, true, false, some,
  List, [], ◌∷◌, arith, ltb, if◌then◌else◌, Bool-cases, get_elem?,
}
use rosa.Guest.Mapping.{end_of, Mapping}
use rosa.Guest.Space.{overlaps, insert_at, lower_bound, previous_of}
use rosa.Guest.Invariant.{Ordered-get, Ordered, IsMapping, end_of-eq}
use rosa.Guest.View.{mapping_at-get, cells-mapping_at, cells-below, cells, covers, cell_of}

pub overlaps-cons :
    (lo b size : ℕ) (n : Mapping) (ns : List Mapping)
    → Ordered lo (n ∷ ns)
    → ltb n.base b ≡ true
    → overlaps (n ∷ ns) b size ≡ false
    → (overlaps ns b size ≡ false) × (n.base + n.size ≤ b)
unfolding overlaps
overlaps-cons lo b size n [] v below free = ground (arith, end_of-eq v.1)
overlaps-cons lo b size n (k ∷ ks) v below free = ground (arith, end_of-eq v.1)

-- The new mapping starts at or above the bound of the table that holds it.
insert-above :
    (lo : ℕ) (ms : List Mapping) (m : Mapping)
    → Ordered lo (insert_at ms (lower_bound ms m.base) m)
    → lo ≤ m.base
unfolding insert_at lower_bound
insert-above lo [] m v = v.0
insert-above lo (n ∷ ns) m v = ground arith

pub insert-Ordered :
    (lo : ℕ) (ms : List Mapping) (m : Mapping)
    → IsMapping m
    → lo ≤ m.base
    → Ordered lo ms
    → overlaps ms m.base m.size ≡ false
    → Ordered lo (insert_at ms (lower_bound ms m.base) m)
unfolding insert_at lower_bound
insert-Ordered lo [] m good above v free = (above, good, tt)
insert-Ordered lo (n ∷ ns) m good above v free = elim (Bool-cases (ltb n.base m.base)) [
  | inl e ↦
      let (free', after) = overlaps-cons lo m.base m.size n ns v e free in
      rw e (v.0, v.1, insert-Ordered (n.base + n.size) ns m good after v.2 free')
  | inr e ↦ rw e (above, good, (unfold overlaps in ground (arith, end_of-eq good), v.1, v.2))
]

-- The new mapping is found at its addresses, and nothing else changes.
pub cells-insert :
    (lo : ℕ) (ms : List Mapping) (m : Mapping) (x : ℕ)
    → Ordered lo (insert_at ms (lower_bound ms m.base) m)
    → cells (insert_at ms (lower_bound ms m.base) m) x
      ≡ (if covers m x then some (cell_of m x) else cells ms x)
unfolding insert_at lower_bound cells
cells-insert lo [] m x v = refl
cells-insert lo (n ∷ ns) m x v = elim (Bool-cases (ltb n.base m.base)) [
  | inl e ↦
      let v' : Ordered lo (n ∷ insert_at ns (lower_bound ns m.base) m) = rw e at v in
      rw e (
        ground (
          arith,
          cells-insert (n.base + n.size) ns m x v'.2,
          insert-above (n.base + n.size) ns m v'.2,
        ))
  | inr e ↦ rw e refl
]

pub lower_bound-get :
    (ms : List Mapping) (value : ℕ) {m : Mapping}
    → get_elem? ms (lower_bound ms value) ≡ some m
    → value ≤ m.base
unfolding lower_bound
lower_bound-get [] value h = ground arith
lower_bound-get (n ∷ ns) value {m} h = elim (Bool-cases (ltb n.base value)) [
  | inl e ↦ lower_bound-get ns value {m = m} (rw e at h)
  | inr e ↦ ground arith
]

pub lower_bound-previous :
    (ms : List Mapping) (value : ℕ) {m : Mapping}
    → previous_of ms (lower_bound ms value) ≡ some m
    → m.base < value
unfolding lower_bound previous_of
lower_bound-previous [] value h = ground arith
lower_bound-previous (n ∷ []) value h = ground arith
lower_bound-previous (n ∷ k ∷ ks) value {m} h =
    ground (arith, lower_bound-previous (k ∷ ks) value {m = m})

-- A range is free when no address of it is mapped.
abbrev pub IsFree : List Mapping → ℕ → ℕ → Type 0
IsFree ms base size = (x : ℕ) → base ≤ x → x < base + size → cells ms x ≡ none

pub overlaps-IsFree :
    (lo base size : ℕ) (ms : List Mapping)
    → base + size < 0x1_0000_0000_0000_0000
    → Ordered lo ms
    → overlaps ms base size ≡ false
    → IsFree ms base size
unfolding cells
overlaps-IsFree lo base size [] fits v free x p q = refl
overlaps-IsFree lo base size (n ∷ ns) fits v free x p q = elim (Bool-cases (ltb n.base base)) [
  | inl e ↦
      let (free', after) = overlaps-cons lo base size n ns v e free in
      ground (arith, overlaps-IsFree (n.base + n.size) base size ns fits v.2 free' x p q)
  | inr e ↦
      let after : base + size ≤ n.base = unfold overlaps lower_bound in ground arith in
      ground (arith, cells-below (n.base + n.size) ns x v.2)
]

-- A mapped address in the range that an entry of the table covers.
covered :
    (lo : ℕ) (ms : List Mapping) (i x : ℕ) {m : Mapping}
    → Ordered lo ms
    → get_elem? ms i ≡ some m
    → m.base ≤ x
    → x < m.base + m.size
    → cells ms x ≢ none
covered lo ms i x {m} v h p q =
    ground (arith, cells-mapping_at ms x, mapping_at-get lo ms i x {m = m} v h p q)

-- A mapping that starts in a free range, or reaches into it, is impossible.
next_fits :
    (base size : ℕ) (ms : List Mapping) (i : ℕ) (m : Mapping)
    → base + size < 0x1_0000_0000_0000_0000
    → Ordered 0 ms
    → IsFree ms base size
    → get_elem? ms i ≡ some m
    → base ≤ m.base
    → ltb m.base (u64 (base + size)) ≡ false
next_fits base size ms i m fits v free h above =
    elim (Bool-cases (ltb m.base (u64 (base + size)))) [
      | inl e ↦
          let good : IsMapping m = (Ordered-get 0 ms i {m = m} v h).0 in
          let inside : m.base < base + size = ground arith in
          absurd (
            covered 0 ms i m.base {m = m} v h (omega arith) (omega (arith, good.not_empty))
              (free m.base above inside))
      | inr e ↦ e
    ]

previous_fits :
    (base size : ℕ) (ms : List Mapping) (i : ℕ) (m : Mapping)
    → 0 < size
    → Ordered 0 ms
    → IsFree ms base size
    → get_elem? ms i ≡ some m
    → m.base < base
    → ltb base (end_of m) ≡ false
previous_fits base size ms i m pos v free h below = elim (Bool-cases (ltb base (end_of m))) [
  | inl e ↦
      let good : IsMapping m = (Ordered-get 0 ms i {m = m} v h).0 in
      let inside : base < m.base + m.size = ground (arith, end_of-eq good) in
      absurd (
        covered 0 ms i base {m = m} v h (omega arith) inside
          (free base (omega arith) (omega arith)))
  | inr e ↦ e
]

previous_of-get :
    (ms : List Mapping) (i : ℕ) {m : Mapping}
    → previous_of ms i ≡ some m
    → (j : ℕ) × (get_elem? ms j ≡ some m)
unfolding previous_of
previous_of-get ms zero h = absurd (cc)
previous_of-get ms (suc j) h = (j, h)

pub IsFree-overlaps :
    (base size : ℕ) (ms : List Mapping)
    → 0 < size
    → base + size < 0x1_0000_0000_0000_0000
    → Ordered 0 ms
    → IsFree ms base size
    → overlaps ms base size ≡ false
unfolding overlaps
IsFree-overlaps base size ms pos fits v free = ground (arith, next_free, previous_free)
  where
    next_free :
        elim (get_elem? ms (lower_bound ms base)) [
          | none ↦ false
          | some m ↦ ltb m.base (u64 (base + size))
        ]
        ≡ false
    next_free = elim (Option-cases (get_elem? ms (lower_bound ms base))) [
      | inl e ↦ rw e refl
      | inr (m, e) ↦
          rw e (
            next_fits base size ms (lower_bound ms base) m fits v free e
              (lower_bound-get ms base e))
    ]

    previous_free :
        elim (previous_of ms (lower_bound ms base)) [ none ↦ false | some m ↦ ltb base (end_of m) ]
        ≡ false
    previous_free = elim (Option-cases (previous_of ms (lower_bound ms base))) [
      | inl e ↦ rw e refl
      | inr (m, e) ↦
          let (j, at) = previous_of-get ms (lower_bound ms base) e in
          rw e (previous_fits base size ms j m pos v free at (lower_bound-previous ms base e))
    ]
