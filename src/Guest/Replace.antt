-- ===== src/Guest/Replace.antt =====
-- The second loop of `protect` and `deallocate`: a table whose mappings are replaced by pieces.
use rosa.Prelude.{
  sym, true, ℕ, ◌+◌, ◌*◌, ◌≤◌, ◌≡◌, refl, ◌∙◌, inl, inr, Option, some, List, [], ◌∷◌, ◌++◌, arith,
  if◌then◌else◌, Bool-cases, length, All, u64_max,
}
use native.Mathlib.Nat.{le_refl}
use rosa.Guest.Mapping.{Mapping}
use rosa.Guest.Space.{ok}
use rosa.Guest.Invariant.{IsMapping, Ordered-lower, Ordered}
use rosa.Guest.View.{Cell, cell_of, covers, cells}
use rosa.Guest.Protect.{replace_all, result_count}
use mathlib.Core.Option

-- `pieces` replaces the mapping `m` and keeps to its range; a cell of it becomes what `f` says.
pub record IsReplacement (f : ℕ → Cell → Option Cell) (m : Mapping) (pieces : List Mapping)
    : Type 0 where
  pub ordered :
      (rest : List Mapping) → Ordered (m.base + m.size) rest → Ordered m.base (pieces ++ rest)
  pub held :
      (rest : List Mapping) (x : ℕ)
      → Ordered (m.base + m.size) rest
      → cells (pieces ++ rest) x ≡ (if covers m x then f x (cell_of m x) else cells rest x)
  pub few : length pieces ≤ 3

module _ (pieces : Mapping → List Mapping) (f : ℕ → Cell → Option Cell) where
  -- The law for the mappings of a table.
  abbrev pub Replaces : List Mapping → Type 0
  Replaces ms = All (λ m. IsReplacement f m (pieces m)) ms

  pub replace_all-Ordered :
      (lo : ℕ) (ms : List Mapping)
      → Replaces ms
      → Ordered lo ms
      → Ordered lo (replace_all pieces ms)
  unfolding replace_all
  replace_all-Ordered lo [] law v = tt
  replace_all-Ordered lo (m ∷ ms) law v =
      Ordered-lower lo m.base _ v.0
        (law.0.ordered _ (replace_all-Ordered (m.base + m.size) ms law.1 v.2))

  pub cells-replace_all :
      (lo : ℕ) (ms : List Mapping) (x : ℕ)
      → Replaces ms
      → Ordered lo ms
      → cells (replace_all pieces ms) x ≡ Option.bind (cells ms x) (f x)
  unfolding replace_all cells Option.bind
  cells-replace_all lo [] x law v = refl
  cells-replace_all lo (m ∷ ms) x law v =
      law.0.held (replace_all pieces ms) x (replace_all-Ordered (m.base + m.size) ms law.1 v.2)
      ∙ split (cells-replace_all (m.base + m.size) ms x law.1 v.2)
    where
      split :
          cells (replace_all pieces ms) x ≡ Option.bind (cells ms x) (f x)
          → (if covers m x then f x (cell_of m x) else cells (replace_all pieces ms) x)
            ≡ Option.bind (if covers m x then some (cell_of m x) else cells ms x) (f x)
      split ih = elim (Bool-cases (covers m x)) [ inl e ↦ rw e refl | inr e ↦ rw e ih ]

  -- The count of the new table never overflows.
  pub result_count-ok :
      (count : ℕ) (ms : List Mapping)
      → Replaces ms
      → count + 3 * length ms ≤ u64_max
      → (n : ℕ) × (result_count pieces count ms ≡ ok n)
  unfolding result_count
  result_count-ok count [] law small = (count, refl)
  result_count-ok count (m ∷ ms) law small =
      let (n, e) =
        result_count-ok (count + length (pieces m)) ms law.1 (omega (arith, law.0.few)) in
      (n, ground (arith, law.0.few))

-- A mapping whose cells are to stay replaces itself.
pub keep-IsReplacement :
    (f : ℕ → Cell → Option Cell) (m : Mapping)
    → IsMapping m
    → ((x : ℕ) → covers m x ≡ true → f x (cell_of m x) ≡ some (cell_of m x))
    → IsReplacement f m (m ∷ [])
keep-IsReplacement f m good same = record {
  ordered = λ rest v. (le_refl m.base, good, v);
  held = λ rest x v. elim (Bool-cases (covers m x)) [
    | inl e ↦ rw e (unfold cells in rw e (sym (same x e)))
    | inr e ↦ rw e (unfold cells in rw e refl)
  ];
  few = omega arith;
}
