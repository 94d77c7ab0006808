-- ===== src/Guest/Protect/Correct.antt =====
-- `AddressSpace::protect` on a valid address space: the promise of each of its results.
use mathlib.Core.Option.{none}
use rosa.Prelude.{
  ◌==◌, refl, u64, ◌⊎◌, ◌≢◌, All-get, ℕ, suc, ◌+◌, ◌%◌, ◌≤◌, ◌<◌, max, ◌≡◌, sym, ◌∙◌, subst, inl,
  inr, Bool, true, false, ◌||◌, some, arith, leb, Bool-cases, length, get_elem?,
}
use rosa.Guest.Mapping.{Mapping, Permission, has_permission, is_executable, has_permission_self}
use rosa.Guest.Space.{AddressSpace, Result, ok, err}
use mathlib.Core.Option
use rosa.Guest.Invariant.{
  Ordered, Ordered-length, empty_lookup-IsCoherent, IsMapping, IsValid, Ordered-get,
}
use rosa.Guest.View.{cells, view, covers, mapping_at, mapping_at-get}
use rosa.Guest.Pages.{PageRange, page_range, page_range_bounds}
use rosa.Guest.Replace.{
  replace_all-Ordered, cells-replace_all, result_count-ok, keep-IsReplacement, IsReplacement,
  Replaces,
}
use rosa.Guest.Protect.{
  ProtectResult, success, invalid_address, protection_failure, invalid_argument, Walk, walked, hole,
  denied, out_of_fuel, walk, protect_pieces, replace_all, exchange, protect_range, protect,
}
use rosa.Guest.Protect.Pieces.{
  protected, new_maximum, protect_pieces-outside, protect_pieces-IsReplacement,
}
use rosa.Guest.Protect.Walking.{walk-keeps, above-le, Allows, Says, walk-Says}

module _ (s : AddressSpace) (address size : ℕ) (permissions : Permission) (private_copy : Bool)
    (v : IsValid s) (r : PageRange) (pos : 0 < size)
    (range : page_range address size ≡ some r) where
  abbrev answer : Walk
  answer =
      walk s.mappings permissions private_copy r.end (suc (length s.mappings)) r.start
        (is_executable permissions)

  answer-Says : Says s.mappings permissions private_copy v.ordered r.start r.end answer
  answer-Says =
      walk-Says s.mappings permissions private_copy v.ordered r.end (suc (length s.mappings))
        r.start (is_executable permissions) (inr (omega (arith, above-le s.mappings r.start)))

  -- Every address of the range is mapped, and its mapping allows the permissions.
  abbrev pub AllAllowed : Type 0
  AllAllowed =
      (x : ℕ)
      → r.start ≤ x
      → x < r.end
      → (m : Mapping) × (mapping_at s.mappings x ≡ some m)
        × Allows s.mappings permissions private_copy v.ordered m

  one_replaced :
      AllAllowed
      → (i : ℕ) (m : Mapping) → get_elem? s.mappings i ≡ some m
      → IsReplacement
          (protected r.start r.end permissions private_copy)
          m
          (protect_pieces r.start r.end permissions private_copy m)
  one_replaced all i m get = elim (Bool-cases (leb (m.base + m.size) r.start || leb r.end m.base)) [
    | inl e ↦
        rw
          (protect_pieces-outside r.start r.end permissions private_copy m aligned.0 aligned.1 good
            (ground arith))
          (keep-IsReplacement _ m good (λ x inside. unfold protected covers in ground arith))
    | inr e ↦
        protect_pieces-IsReplacement r.start r.end permissions private_copy m aligned.0 aligned.1
          good (ground arith) (ground arith) (omega (arith, bounds))
          (allowed private_copy all (ground arith) (ground arith))
  ]
    where
      good : IsMapping m
      good = (Ordered-get 0 s.mappings i {m = m} v.ordered get).0

      bounds : r.start < r.end
      bounds = (page_range_bounds address size {r = r} pos range).4

      aligned : (r.start % 4096 ≡ 0) × (r.end % 4096 ≡ 0)
      aligned = (
        (page_range_bounds address size {r = r} pos range).5,
        (page_range_bounds address size {r = r} pos range).6,
      )

      allows_self :
          (copy : Bool)
          → Allows s.mappings permissions copy v.ordered m
          → has_permission (new_maximum copy permissions m.maximum_permissions) permissions ≡ true
      allows_self true a = has_permission_self permissions
      allows_self false (inl e) = cc
      allows_self false (inr e) = e

      same : (n : Mapping) → some n ≡ some m → n ≡ m
      same n h = cc

      allowed :
          (copy : Bool)
          → ((x : ℕ)
              → r.start ≤ x
              → x < r.end
              → (n : Mapping) × (mapping_at s.mappings x ≡ some n)
                × Allows s.mappings permissions copy v.ordered n)
          → r.start < m.base + m.size
          → m.base < r.end
          → has_permission (new_maximum copy permissions m.maximum_permissions) permissions ≡ true
      allowed copy every p q =
          let x : ℕ = max m.base r.start in
          let (n, at, a) = every x (omega arith) (omega (arith, bounds)) in
          let here : mapping_at s.mappings x ≡ some m =
            mapping_at-get 0 s.mappings i x {m = m} v.ordered get (omega arith)
              (omega (arith, good.not_empty)) in
          allows_self copy
            (subst (Allows s.mappings permissions copy v.ordered) (same n (sym at ∙ here)) a)

  pub pieces-Replaces :
      AllAllowed
      → Replaces
          (protect_pieces r.start r.end permissions private_copy)
          (protected r.start r.end permissions private_copy)
          s.mappings
  pieces-Replaces all = All-get _ s.mappings (one_replaced all)

  -- The space after a successful call: valid, with the new permissions in the range, all else as
  -- it was, and a new version of the executable bytes unless none of them is touched.
  pub record IsProtected (s' : AddressSpace) : Type 0 where
    pub valid : IsValid s'
    pub holds :
        (x : ℕ)
        → view s' x ≡ Option.bind (view s x) (protected r.start r.end permissions private_copy x)
    pub version :
        (s'.executable_version ≡ u64 (s.executable_version + 1))
        ⊎ ((s'.executable_version ≡ s.executable_version)
            × (is_executable permissions ≡ false)
            × ((x : ℕ)
                → r.start ≤ x
                → x < r.end
                → (m : Mapping) × (mapping_at s.mappings x ≡ some m)
                  × (is_executable m.permissions ≡ false)))

  -- What each answer of `protect` says.
  abbrev pub Promise : Result (ProtectResult × AddressSpace) → Type 0
  Promise (ok (success, s')) = AllAllowed × IsProtected s'
  Promise (ok (invalid_address, s')) =
      (s' ≡ s) × ((x : ℕ) × (r.start ≤ x) × (x < r.end) × (mapping_at s.mappings x ≡ none))
  Promise (ok (protection_failure, s')) =
      (s' ≡ s)
      × ((x : ℕ) × (m : Mapping) × (r.start ≤ x)
          × (x < r.end)
          × (mapping_at s.mappings x ≡ some m)
          × ¬ Allows s.mappings permissions private_copy v.ordered m)
  Promise (ok (invalid_argument, s')) = ⊥
  Promise (err e) = ⊥

  allowed_of :
      (changes : Bool)
      → Says s.mappings permissions private_copy v.ordered r.start r.end (walked changes)
      → AllAllowed
  allowed_of changes says x p q = let (m, at, a, flag) = says x p q in (m, at, a)

  replaced-Ordered :
      AllAllowed
      → Ordered 0 (replace_all (protect_pieces r.start r.end permissions private_copy) s.mappings)
  replaced-Ordered all =
      replace_all-Ordered (protect_pieces r.start r.end permissions private_copy)
        (protected r.start r.end permissions private_copy) 0 s.mappings (pieces-Replaces all)
        v.ordered

  replaced_holds :
      AllAllowed
      → (x : ℕ)
      → cells (replace_all (protect_pieces r.start r.end permissions private_copy) s.mappings) x
        ≡ Option.bind (view s x) (protected r.start r.end permissions private_copy x)
  unfolding view
  replaced_holds all x =
      cells-replace_all (protect_pieces r.start r.end permissions private_copy)
        (protected r.start r.end permissions private_copy) 0 s.mappings x (pieces-Replaces all)
        v.ordered

  exchange-IsProtected :
      (changes : Bool)
      → Says s.mappings permissions private_copy v.ordered r.start r.end (walked changes)
      → ((changes ≡ true) ⊎ (is_executable permissions ≡ false))
      → IsProtected (
          exchange s
            (replace_all (protect_pieces r.start r.end permissions private_copy) s.mappings)
            changes)
  unfolding exchange view
  exchange-IsProtected true says own = record {
    valid = record {
      ordered = replaced-Ordered (allowed_of true says);
      sixteen = refl;
      coherent = empty_lookup-IsCoherent _;
    };
    holds = replaced_holds (allowed_of true says);
    version = inl refl;
  }
  exchange-IsProtected false says own = record {
    valid = record {
      ordered = replaced-Ordered (allowed_of false says);
      sixteen = refl;
      coherent = empty_lookup-IsCoherent _;
    };
    holds = replaced_holds (allowed_of false says);
    version =
        inr
          (refl, ground arith, λ x p q. let (m, at, a, flag) = says x p q in (m, at, ground arith));
  }

  executable_kept : is_executable permissions ≡ true → answer ≢ walked false
  executable_kept e = rw e (
      walk-keeps s.mappings permissions private_copy v.ordered r.end (suc (length s.mappings))
        r.start)

  promised :
      (w : Walk)
      → Says s.mappings permissions private_copy v.ordered r.start r.end w
      → (is_executable permissions ≡ true → w ≢ walked false)
      → Promise (protect_range s r permissions private_copy w)
  unfolding protect_range
  promised (walked changes) says own =
      let all : AllAllowed = allowed_of changes says in
      let (n, e) =
        result_count-ok (protect_pieces r.start r.end permissions private_copy)
          (protected r.start r.end permissions private_copy) 0 s.mappings (pieces-Replaces all)
          (omega (arith, Ordered-length 0 s.mappings (omega arith) v.ordered)) in
      rw e (all, exchange-IsProtected changes says (flag changes own))
    where
      flag :
          (changes : Bool)
          → (is_executable permissions ≡ true → walked changes ≢ walked false)
          → (changes ≡ true) ⊎ (is_executable permissions ≡ false)
      flag true k = inl refl
      flag false k = elim (Bool-cases (is_executable permissions)) [
        | inl e ↦ absurd (k e refl)
        | inr e ↦ inr e
      ]
  promised hole (x, p, q, e) own = (refl, (x, p, q, e))
  promised denied (x, m, p, q, e, d) own = (refl, (x, m, p, q, e, d))
  promised out_of_fuel says own = says

  -- On a valid space, for a size that is not 0 and a range that does not overflow, `protect`
  -- returns: it succeeds, with the promised space, when every address of the rounded range is
  -- mapped and allows the permissions, and otherwise reports an address that is not, and changes
  -- nothing.
  pub protect_lem : Promise (protect s address size permissions private_copy)
  unfolding protect
  protect_lem =
      let nonzero : (size == 0) ≡ false = ground arith in
      rw (nonzero, range) (promised answer answer-Says executable_kept)
