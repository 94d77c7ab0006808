-- ===== src/Guest/Batch/Merge.antt =====
-- Merging two tables of mappings that do not overlap.
use rosa.Prelude.{
  lt→ltb, ltb→lt, ℕ, zero, suc, ◌+◌, ◌<◌, ◌≡◌, refl, inl, inr, true, false, none, some, List, [],
  ◌∷◌, arith, ltb, Bool-cases, get_elem?, All,
}
use native.Mathlib.Nat.{le_refl}
use rosa.Guest.Space.{lower_bound}
use rosa.Prelude.{lt→ltb, ltb→lt}
use rosa.Guest.Mapping.{Mapping}
use rosa.Guest.Space.{overlaps}
use rosa.Guest.Invariant.{Ordered, end_of-eq}
use rosa.Guest.View.{cells, cells-below}
use rosa.Guest.Insert.{overlaps-cons}
use rosa.Guest.Batch.{merge}

-- The new mappings fit between those of the table.
abbrev pub Fits : List Mapping → List Mapping → Type 0
Fits ms ps = All (λ p. overlaps ms p.base p.size ≡ false) ps

-- Past a mapping that starts below them, they fit the rest of the table.
Fits-tail :
    (lo : ℕ) (m : Mapping) (ms ps : List Mapping) (low : ℕ)
    → Ordered lo (m ∷ ms)
    → m.base < low
    → Ordered low ps
    → Fits (m ∷ ms) ps
    → Fits ms ps
Fits-tail lo m ms [] low v h w fits = tt
Fits-tail lo m ms (p ∷ ps) low v h w fits =
    let below : ltb m.base p.base ≡ true = lt→ltb m.base p.base (omega (arith, w.0)) in
    (
      (overlaps-cons lo p.base p.size m ms v below fits.0).0,
      Fits-tail lo m ms ps (p.base + p.size) v (omega (arith, w.0)) w.2 fits.1,
    )

merge-lt :
    (m p : Mapping) (ms ps : List Mapping)
    → ltb m.base p.base ≡ true
    → merge (m ∷ ms) (p ∷ ps) ≡ m ∷ merge ms (p ∷ ps)
unfolding merge
merge-lt m p ms ps e = rw (e, merge) refl

merge-ge :
    (m p : Mapping) (ms ps : List Mapping)
    → ltb m.base p.base ≡ false
    → merge (m ∷ ms) (p ∷ ps) ≡ p ∷ merge (m ∷ ms) ps
unfolding merge
merge-ge m p ms ps e = rw (e, merge) refl

merge-nil : (ms : List Mapping) → merge ms [] ≡ ms
unfolding merge
merge-nil [] = refl
merge-nil (m ∷ ms) = refl

module _ (lo : ℕ) (m p : Mapping) (ms ps : List Mapping) (v : Ordered lo (m ∷ ms))
    (w : Ordered lo (p ∷ ps)) (fits : Fits (m ∷ ms) (p ∷ ps)) where
  -- The heads of the rest, when the table's mapping goes first.
  first_rest : ltb m.base p.base ≡ true → Ordered (m.base + m.size) (p ∷ ps) × Fits ms (p ∷ ps)
  first_rest e =
      let (fit, after) = overlaps-cons lo p.base p.size m ms v e fits.0 in
      (
        (after, w.1, w.2),
        Fits-tail lo m ms (p ∷ ps) p.base v (ltb→lt m.base p.base e) (le_refl p.base, w.1, w.2)
            fits,
      )

  -- And when the new mapping goes first.
  second_rest : ltb m.base p.base ≡ false → Ordered (p.base + p.size) (m ∷ ms)
  second_rest e = (unfold overlaps lower_bound in ground (arith, fits.0, end_of-eq w.1), v.1, v.2)

pub merge-Ordered :
    (lo : ℕ) (ms ps : List Mapping)
    → Ordered lo ms
    → Ordered lo ps
    → Fits ms ps
    → Ordered lo (merge ms ps)
unfolding merge
merge-Ordered lo [] ps v w fits = w
merge-Ordered lo (m ∷ ms) [] v w fits = v
merge-Ordered lo (m ∷ ms) (p ∷ ps) v w fits = elim (Bool-cases (ltb m.base p.base)) [
  | inl e ↦
      let (w', fits') = first_rest lo m p ms ps v w fits e in
      rw (merge-lt m p ms ps e) (v.0, v.1, merge-Ordered (m.base + m.size) ms (p ∷ ps) v.2 w' fits')
  | inr e ↦ rw (merge-ge m p ms ps e) (
    w.0,
    w.1,
    merge-Ordered (p.base + p.size) (m ∷ ms) ps (second_rest lo m p ms ps v w fits e) w.2 fits.1,
  )
]

-- What the table held stays, and the new mappings are found where it held nothing.
pub cells-merge :
    (lo : ℕ) (ms ps : List Mapping) (x : ℕ)
    → Ordered lo ms
    → Ordered lo ps
    → Fits ms ps
    → cells (merge ms ps) x ≡ elim (cells ms x) [ none ↦ cells ps x | some c ↦ some c ]
unfolding merge cells
cells-merge lo [] ps x v w fits = refl
cells-merge lo (m ∷ ms) [] x v w fits = ground arith
cells-merge lo (m ∷ ms) (p ∷ ps) x v w fits = elim (Bool-cases (ltb m.base p.base)) [
  | inl e ↦
      let (w', fits') = first_rest lo m p ms ps v w fits e in
      rw (merge-lt m p ms ps e)
        (ground (arith, cells-merge (m.base + m.size) ms (p ∷ ps) x v.2 w' fits'))
  | inr e ↦
      let v' : Ordered (p.base + p.size) (m ∷ ms) = second_rest lo m p ms ps v w fits e in
      rw (merge-ge m p ms ps e) (
        ground (
          arith,
          cells-merge (p.base + p.size) (m ∷ ms) ps x v' w.2 fits.1,
          cells-below (p.base + p.size) (m ∷ ms) x v',
        ))
]

-- Every mapping of the table is in the merged one.
pub merge-get :
    (ms ps : List Mapping) (i : ℕ) {m : Mapping}
    → get_elem? ms i ≡ some m
    → (j : ℕ) × (get_elem? (merge ms ps) j ≡ some m)
unfolding merge
merge-get [] ps i h = absurd (cc)
merge-get (n ∷ ns) [] i h = (i, h)
merge-get (n ∷ ns) (p ∷ ps) zero {m} h = elim (Bool-cases (ltb n.base p.base)) [
  | inl e ↦ rw (merge-lt n p ns ps e) (0, h)
  | inr e ↦
      let (j, g) = merge-get (n ∷ ns) ps zero {m = m} h in rw (merge-ge n p ns ps e) (suc j, g)
]
merge-get (n ∷ ns) (p ∷ ps) (suc i) {m} h = elim (Bool-cases (ltb n.base p.base)) [
  | inl e ↦ let (j, g) = merge-get ns (p ∷ ps) i {m = m} h in rw (merge-lt n p ns ps e) (suc j, g)
  | inr e ↦
      let (j, g) = merge-get (n ∷ ns) ps (suc i) {m = m} h in rw (merge-ge n p ns ps e) (suc j, g)
]
