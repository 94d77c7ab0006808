-- ===== src/Guest/Deallocate/Correct.antt =====
-- `deallocate` on a valid address space.
use rosa.Prelude.{
  ℕ, zero, suc, ◌+◌, ◌≤◌, ◌<◌, ◌≡◌, refl, ◌∙◌, ◌⊎◌, inl, inr, Bool, true, false, ◌&&◌, none, some,
  List, [], ◌∷◌, arith, ltb, leb, ◌==◌, if◌then◌else◌, get_elem?, u64,
}
use mathlib.Core.Option
use rosa.Guest.Mapping.{Mapping, is_executable}
use rosa.Guest.Space.{AddressSpace, ok}
use rosa.Guest.Invariant.{
  Ordered, IsValid, end_of-eq, Ordered-get, Ordered-length, empty_lookup-IsCoherent,
}
use rosa.Guest.View.{cells, view, mapping_at, mapping_at_sound}
use rosa.Guest.Pages.{PageRange, page_range, page_range_bounds}
use rosa.Guest.Protect.{replace_all, exchange}
use rosa.Guest.Replace.{Replaces, replace_all-Ordered, cells-replace_all, result_count-ok}
use rosa.Guest.Deallocate.{success, is_outside, deallocate_pieces, removes_executable, deallocate}
use rosa.Guest.Deallocate.Pieces.{deallocated, deallocate_pieces-IsReplacement}
use rosa.Prelude.{All-get}

removes_executable-false :
    (start end : ℕ) (ms : List Mapping) (i : ℕ) {m : Mapping}
    → removes_executable start end ms ≡ false
    → get_elem? ms i ≡ some m
    → (is_outside start end m ≡ true) ⊎ (is_executable m.permissions ≡ false)
unfolding removes_executable
removes_executable-false start end [] i h get = cc
removes_executable-false start end (n ∷ ns) zero h get = ground arith
removes_executable-false start end (n ∷ ns) (suc i) {m} h get =
    removes_executable-false start end ns i {m = m} (ground arith) get

module _ (s : AddressSpace) (address size : ℕ) (v : IsValid s) (r : PageRange) (pos : 0 < size)
    (range : page_range address size ≡ some r) where
  -- The space afterwards: valid, empty in the range, elsewhere as it was, and with a new version of
  -- the executable bytes unless no mapping in the range is executable.
  pub record IsDeallocated (s' : AddressSpace) : Type 0 where
    pub valid : IsValid s'
    pub holds : (x : ℕ) → view s' x ≡ (if leb r.start x && ltb x r.end then none else view s x)
    pub version :
        (s'.executable_version ≡ u64 (s.executable_version + 1))
        ⊎ ((s'.executable_version ≡ s.executable_version)
            × ((x : ℕ) (m : Mapping)
                → r.start ≤ x
                → x < r.end
                → mapping_at s.mappings x ≡ some m
                → is_executable m.permissions ≡ false))

  abbrev pieces : Mapping → List Mapping
  pieces = deallocate_pieces r.start r.end

  pieces-Replaces : Replaces pieces (deallocated r.start r.end) s.mappings
  pieces-Replaces = All-get _ s.mappings λ i m get.
      let (p, q, a, b, proper, start_aligned, end_aligned, small) =
        page_range_bounds address size {r = r} pos range in
      deallocate_pieces-IsReplacement r.start r.end m start_aligned end_aligned
        (Ordered-get 0 s.mappings i {m = m} v.ordered get).0 proper

  left-Ordered : Ordered 0 (replace_all pieces s.mappings)
  left-Ordered =
      replace_all-Ordered pieces (deallocated r.start r.end) 0 s.mappings pieces-Replaces v.ordered

  left_holds :
      (x : ℕ)
      → cells (replace_all pieces s.mappings) x
        ≡ (if leb r.start x && ltb x r.end then none else view s x)
  unfolding view deallocated Option.bind
  left_holds x =
      cells-replace_all pieces (deallocated r.start r.end) 0 s.mappings x pieces-Replaces v.ordered
      ∙ ground arith

  exchange-IsDeallocated :
      (changes : Bool)
      → removes_executable r.start r.end s.mappings ≡ changes
      → IsDeallocated (exchange s (replace_all pieces s.mappings) changes)
  unfolding exchange view
  exchange-IsDeallocated true e = record {
    valid = record { ordered = left-Ordered; sixteen = refl; coherent = empty_lookup-IsCoherent _ };
    holds = left_holds;
    version = inl refl;
  }
  exchange-IsDeallocated false e = record {
    valid = record { ordered = left-Ordered; sixteen = refl; coherent = empty_lookup-IsCoherent _ };
    holds = left_holds;
    version = inr (
      refl,
      λ x m p q at.
          let (low, high, (i, get)) = mapping_at_sound s.mappings x {m = m} at in
          ground (
            arith,
            removes_executable-false r.start r.end s.mappings i {m = m} e get,
            end_of-eq (Ordered-get 0 s.mappings i {m = m} v.ordered get).0,
          ),
    );
  }

  -- On a valid space, for a size that is not 0 and a range that does not overflow, `deallocate`
  -- succeeds and unmaps exactly the addresses of the rounded range; the space stays valid, and the
  -- version of the executable bytes is a new one unless no mapping in the range is executable.
  pub deallocate_lem :
      (s' : AddressSpace) × (deallocate s address size ≡ ok (success, s')) × IsDeallocated s'
  unfolding deallocate
  deallocate_lem =
      let (n, e) =
        result_count-ok pieces (deallocated r.start r.end) 0 s.mappings pieces-Replaces
          (omega (arith, Ordered-length 0 s.mappings (omega arith) v.ordered)) in
      let nonzero : (size == 0) ≡ false = ground arith in
      (
        exchange s (replace_all pieces s.mappings) (removes_executable r.start r.end s.mappings),
        rw (nonzero, range, e) refl,
        exchange-IsDeallocated (removes_executable r.start r.end s.mappings) refl,
      )
