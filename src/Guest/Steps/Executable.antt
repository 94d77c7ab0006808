-- ===== src/Guest/Steps/Executable.antt =====
-- The version of the executable bytes, on which src/dbt/BlockCache.cpp relies, over one step.
use rosa.Prelude.{
  ℕ, ◌+◌, ◌≤◌, ◌<◌, ◌≡◌, refl, sym, ap, ◌∙◌, ◌≢◌, ◌⊎◌, inl, inr, Bool, true, false, ◌&&◌, Option,
  none, some, List, [], ◌∷◌, arith, ltb, leb, if◌then◌else◌, Bool-cases, Option-cases, All, u64,
}
use mathlib.Core.Option
use rosa.Guest.Mapping.{Mapping, Permission, is_executable}
use rosa.Guest.Space.{AddressSpace}
use rosa.Guest.Invariant.{IsValid}
use rosa.Guest.View.{Cell, view, cells, covers, cell_of, mapping_at, cells-mapping_at}
use rosa.Guest.Create.{Creates, map_segment-Creates, map_anonymous-Creates}
use rosa.Guest.Pages.{PageRange, page_range}
use rosa.Guest.Protect.Pieces.{protected}
use rosa.Guest.Protect.Correct.{IsProtected}
use rosa.Guest.Deallocate.Correct.{IsDeallocated}
use rosa.Guest.Lookup.Correct.{find-IsFound}
use rosa.Guest.Batch.{SegmentMapping}
use rosa.Guest.Segments.{within, segment_cell}
use rosa.Guest.Batch.Correct.{IsBatch, map_segments-IsBatch}
use rosa.Guest.Steps.{
  Step, segment, anonymous, batch, protects, deallocates, finds, protect_cases, deallocate_cases,
}

-- The cell that the guest may execute at an address.
abbrev pub executable : Option Cell → Option Cell
executable none = none
executable (some c) = if is_executable c.permissions then some c else none

-- The next version is another one, also when it wraps.
next_version : (n : ℕ) → u64 (n + 1) ≢ n
next_version n = omega arith

Creates-executable :
    (s t : AddressSpace) (m : Mapping) (x : ℕ)
    → Creates s t m
    → t.executable_version ≡ s.executable_version
    → executable (view t x) ≡ executable (view s x)
Creates-executable s t m x c same = elim (Bool-cases (is_executable m.permissions)) [
  | inl e ↦ absurd (next_version s.executable_version (sym (rw e at c.version) ∙ same))
  | inr e ↦ elim (Bool-cases (covers m x)) [
    | inl inside ↦ rw (c.holds x, inside, c.free x inside) (unfold cell_of in rw e refl)
    | inr outside ↦ rw (c.holds x, outside) refl
  ]
]

view-at :
    (s : AddressSpace) (x : ℕ) (m : Mapping)
    → mapping_at s.mappings x ≡ some m
    → view s x ≡ some (cell_of m x)
unfolding view
view-at s x m at = cells-mapping_at s.mappings x ∙ rw at refl

view-none : (s : AddressSpace) (x : ℕ) → mapping_at s.mappings x ≡ none → view s x ≡ none
unfolding view
view-none s x at = cells-mapping_at s.mappings x ∙ rw at refl

cell_of-still :
    (m : Mapping) (x : ℕ)
    → is_executable m.permissions ≡ false
    → executable (some (cell_of m x)) ≡ none
unfolding cell_of
cell_of-still m x still = rw still refl

protected-inside :
    (start end : ℕ) (permissions : Permission) (private_copy : Bool) (x : ℕ) (c : Cell)
    → (leb start x && ltb x end) ≡ true
    → is_executable permissions ≡ false
    → executable (Option.bind (some c) (protected start end permissions private_copy x)) ≡ none
unfolding protected Option.bind
protected-inside start end permissions private_copy x c inside own = rw (inside, own) refl

protected-outside :
    (start end : ℕ) (permissions : Permission) (private_copy : Bool) (x : ℕ) (c : Option Cell)
    → (leb start x && ltb x end) ≡ false
    → Option.bind c (protected start end permissions private_copy x) ≡ c
unfolding protected Option.bind
protected-outside start end permissions private_copy x none outside = refl
protected-outside start end permissions private_copy x (some c) outside = rw outside refl

protected-executable :
    (s t : AddressSpace) (address size : ℕ) (permissions : Permission) (private_copy : Bool)
    (v : IsValid s) (r : PageRange) (pos : 0 < size) (range : page_range address size ≡ some r)
    (x : ℕ)
    → IsProtected s address size permissions private_copy v r pos range t
    → t.executable_version ≡ s.executable_version
    → executable (view t x) ≡ executable (view s x)
protected-executable s t address size permissions private_copy v r pos range x p same =
    elim p.version [
      | inl e ↦ absurd (next_version s.executable_version (sym e ∙ same))
      | inr (e, own, all) ↦ elim (Bool-cases (leb r.start x && ltb x r.end)) [
        | inl inside ↦
            let (m, at, still) = all x (ground arith) (ground arith) in
            rw (p.holds x, view-at s x m at)
              (protected-inside r.start r.end permissions private_copy x (cell_of m x) inside own
                ∙ sym (cell_of-still m x still))
        | inr outside ↦ ap executable (
            p.holds x
            ∙ protected-outside r.start r.end permissions private_copy x (view s x) outside)
      ]
    ]

deallocated-executable :
    (s t : AddressSpace) (address size : ℕ) (v : IsValid s) (r : PageRange) (pos : 0 < size)
    (range : page_range address size ≡ some r) (x : ℕ)
    → IsDeallocated s address size v r pos range t
    → t.executable_version ≡ s.executable_version
    → executable (view t x) ≡ executable (view s x)
deallocated-executable s t address size v r pos range x d same = elim d.version [
  | inl e ↦ absurd (next_version s.executable_version (sym e ∙ same))
  | inr (e, all) ↦ elim (Bool-cases (leb r.start x && ltb x r.end)) [
    | inr outside ↦ rw (d.holds x, outside) refl
    | inl inside ↦
        rw (d.holds x, inside)
          (elim (Option-cases (mapping_at s.mappings x)) [
            | inl nothing ↦ rw (view-none s x nothing) refl
            | inr (m, at) ↦
                let still : is_executable m.permissions ≡ false =
                  all x m (ground arith) (ground arith) at in
                rw (view-at s x m at) (sym (cell_of-still m x still))
          ])
  ]
]

-- An address is in one of the requests of a batch, or in none.
batch_at :
    (s t : AddressSpace) (x : ℕ) (rs : List SegmentMapping)
    → All
        (λ r.
          (x : ℕ)
          → r.base ≤ x
          → x < r.base + r.size
          → view t x
            ≡ some
                (segment_cell r.base r.permissions r.maximum_permissions r.initial_bytes r.label x))
        rs
    → All (λ r. (x : ℕ) → r.base ≤ x → x < r.base + r.size → view s x ≡ none) rs
    → All (λ r. is_executable r.permissions ≡ false) rs
    → (executable (view t x) ≡ executable (view s x)) ⊎ All (λ r. within r.base r.size x ≡ false) rs
batch_at s t x [] placed free still = inr tt
batch_at s t x (r ∷ rs) placed free still = elim (Bool-cases (within r.base r.size x)) [
  | inl inside ↦
      let low : r.base ≤ x = ground arith in
      let high : x < r.base + r.size = ground arith in
      inl (rw (placed.0 x low high, free.0 x low high) (rw still.0 refl))
  | inr outside ↦ elim (batch_at s t x rs placed.1 free.1 still.1) [
    | inl same ↦ inl same
    | inr away ↦ inr (outside, away)
  ]
]

IsBatch-executable :
    (s t : AddressSpace) (rs : List SegmentMapping) (x : ℕ)
    → IsBatch s rs t
    → t.executable_version ≡ s.executable_version
    → executable (view t x) ≡ executable (view s x)
IsBatch-executable s t rs x b same = elim b.version [
  | inl e ↦ absurd (next_version s.executable_version (sym e ∙ same))
  | inr (e, still) ↦ elim (batch_at s t x rs b.placed b.free still) [
    | inl done ↦ done
    | inr away ↦ ap executable (b.kept x away)
  ]
]

-- A step from a valid space that keeps the version of the executable bytes keeps, at every address,
-- the cell that the guest may execute there, or that there is none.
pub Step-executable :
    {s t : AddressSpace}
    → Step s t
    → IsValid s
    → t.executable_version ≡ s.executable_version
    → (x : ℕ) → executable (view t x) ≡ executable (view s x)
Step-executable {s} {t} (segment base size permissions maximum bytes label small h) v same x =
    Creates-executable s t _ x
      (map_segment-Creates s base size permissions maximum label v small bytes h) same
Step-executable {s} {t} (anonymous base size permissions maximum label mmap small h) v same x =
    Creates-executable s t _ x
      (map_anonymous-Creates s base size permissions maximum label v small mmap h) same
Step-executable {s} {t} (batch requests small h) v same x =
    IsBatch-executable s t requests x (map_segments-IsBatch s t requests v small h) same
Step-executable {s} {t} (protects address size permissions private_copy result h) v same x =
    elim (protect_cases s t address size permissions private_copy result v h) [
      | inl e ↦ rw e refl
      | inr (r, pos, e, p) ↦
          protected-executable s t address size permissions private_copy v r pos e x p same
    ]
Step-executable {s} {t} (deallocates address size result h) v same x =
    elim (deallocate_cases s t address size result v h) [
      | inl e ↦ rw e refl
      | inr (r, pos, e, d) ↦ deallocated-executable s t address size v r pos e x d same
    ]
Step-executable {s} {t} (finds address size required pos e) v same x = rw e (
    unfold view in
    ap (λ ms. executable (cells ms x)) (find-IsFound s address size required v pos).table)
