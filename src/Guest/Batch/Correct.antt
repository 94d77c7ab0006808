-- ===== src/Guest/Batch/Correct.antt =====
-- `mapSegments` on a valid address space.
use rosa.Prelude.{
  All-both, ℕ, ◌+◌, ◌-◌, ◌≤◌, ◌<◌, ◌≡◌, refl, subst, ◌⊎◌, inl, inr, Bool, true, false, none, some,
  List, [], ◌∷◌, arith, ltb, leb, Bool-cases, length, All, u64, u64_max,
}
use mathlib.Core.List.{map}
use rosa.Prelude.{All-map}
use rosa.Guest.Mapping.{Mapping, is_executable}
use rosa.Guest.Space.{
  LookupEntry, AddressSpace, ok, >>-eq-ok, ok-injective, throw_if, validate_new_mapping, overlaps,
}
use rosa.Guest.Invariant.{Ordered, IsMapping, IsValid, IsCoherent}
use rosa.Guest.View.{cells-below, cells, covers, cell_of, view}
use rosa.Guest.Insert.{overlaps-IsFree}
use rosa.Guest.Create.{IsRange, validate_sound, backing_of-Fills}
use rosa.Guest.Segments.{within, segment_cell, cell_of-segment_cell}
use rosa.Guest.Batch.{
  bump_if, Error, SegmentMapping, validate_requests, insert_request, sort_requests,
  validate_neighbours, validate_order, pending_mapping, adds_executable, merge, map_sorted,
  map_segments,
}
use rosa.Guest.Batch.Merge.{Fits, merge-Ordered, cells-merge, merge-get}

module _ {ℓ} (P : SegmentMapping → Type ℓ) where
  All-insert :
      (r : SegmentMapping) (qs : List SegmentMapping) → P r → All P qs → All P (insert_request r qs)
  unfolding insert_request
  All-insert r [] p h = (p, tt)
  All-insert r (q ∷ qs) p h = elim (Bool-cases (leb r.base q.base)) [
    | inl e ↦ rw e (p, h)
    | inr e ↦ rw e (h.0, All-insert r qs p h.1)
  ]

  All-insert_back :
      (r : SegmentMapping) (qs : List SegmentMapping) → All P (insert_request r qs) → P r × All P qs
  unfolding insert_request
  All-insert_back r [] h = h
  All-insert_back r (q ∷ qs) h = elim (Bool-cases (leb r.base q.base)) [
    | inl e ↦ rw e at h
    | inr e ↦
        let h' : P q × All P (insert_request r qs) = rw e at h in
        let (p, rest) = All-insert_back r qs h'.1 in (p, (h'.0, rest))
  ]

  All-sort : (rs : List SegmentMapping) → All P rs → All P (sort_requests rs)
  unfolding sort_requests
  All-sort [] h = tt
  All-sort (r ∷ rs) h = All-insert r (sort_requests rs) h.0 (All-sort rs h.1)

  All-sort_back : (rs : List SegmentMapping) → All P (sort_requests rs) → All P rs
  unfolding sort_requests
  All-sort_back [] h = tt
  All-sort_back (r ∷ rs) h =
      let (p, rest) = All-insert_back r (sort_requests rs) h in (p, All-sort_back rs rest)

-- A request whose range may be mapped and is free in the table.
pub record IsFitting (ms : List Mapping) (r : SegmentMapping) : Type 0 where
  pub range : IsRange r.base r.size r.permissions r.maximum_permissions
  pub short : length r.initial_bytes ≤ r.size
  pub free : overlaps ms r.base r.size ≡ false

abbrev pub IsWord : SegmentMapping → Type 0
IsWord r = r.size ≤ u64_max

validate_requests-IsFitting :
    (s : AddressSpace) (rs : List SegmentMapping)
    → All IsWord rs
    → validate_requests s rs ≡ ok tt
    → All (IsFitting s.mappings) rs
unfolding validate_requests
validate_requests-IsFitting s [] small h = tt
validate_requests-IsFitting s (r ∷ rs) small h =
    let (a, h') =
      >>-eq-ok (throw_if (ltb r.size (length r.initial_bytes)) Error.file_bytes_exceed_size) _ h in
    let (b, c) =
      >>-eq-ok (validate_new_mapping s r.base r.size r.permissions r.maximum_permissions)
        (validate_requests s rs) h' in
    let (range, free) =
      validate_sound s r.base r.size r.permissions r.maximum_permissions small.0 b in
    (
      record { range = range; short = ground arith; free = free },
      validate_requests-IsFitting s rs small.1 c,
    )

pending_mapping-IsMapping :
    (ms : List Mapping) (r : SegmentMapping) → IsFitting ms r → IsMapping (pending_mapping r)
pending_mapping-IsMapping ms r f = record {
  not_empty = f.range.not_empty;
  base_aligned = f.range.base_aligned;
  size_aligned = f.range.size_aligned;
  fits = f.range.fits;
  permitted = f.range.permitted;
  bytes_fill = backing_of-Fills r.maximum_permissions r.size r.initial_bytes f.short;
  readable_fill = inl refl;
}

-- Neighbours that do not overlap make an ordered table.
neighbours-Ordered :
    (ms : List Mapping) (previous : SegmentMapping) (rs : List SegmentMapping)
    → IsFitting ms previous
    → All (IsFitting ms) rs
    → validate_neighbours previous rs ≡ ok tt
    → Ordered (previous.base + previous.size) (map pending_mapping rs)
unfolding validate_neighbours
neighbours-Ordered ms previous [] p all h = tt
neighbours-Ordered ms previous (r ∷ rs) p all h =
    let (a, h') =
      >>-eq-ok (throw_if (ltb r.base (u64 (previous.base + previous.size))) Error.batch_overlaps)
        (validate_neighbours r rs) h in
    (
      (ground (arith, p.range.fits)),
      pending_mapping-IsMapping ms r all.0,
      (neighbours-Ordered ms r rs all.0 all.1 h'),
    )

order-Ordered :
    (ms : List Mapping) (rs : List SegmentMapping)
    → All (IsFitting ms) rs
    → validate_order rs ≡ ok tt
    → Ordered 0 (map pending_mapping rs)
unfolding validate_order
order-Ordered ms [] all h = tt
order-Ordered ms (r ∷ rs) all h =
    (omega arith, pending_mapping-IsMapping ms r all.0, neighbours-Ordered ms r rs all.0 all.1 h)

fitting-Fits :
    (ms : List Mapping) (rs : List SegmentMapping)
    → All (IsFitting ms) rs
    → Fits ms (map pending_mapping rs)
fitting-Fits ms [] all = tt
fitting-Fits ms (r ∷ rs) all = (all.0.free, fitting-Fits ms rs all.1)

-- The new table's cells at the addresses of a request, and away from all requests.
cells-pending :
    (lo : ℕ) (rs : List SegmentMapping)
    → Ordered lo (map pending_mapping rs)
    → All
        (λ r.
          (x : ℕ)
          → r.base ≤ x
          → x < r.base + r.size
          → cells (map pending_mapping rs) x ≡ some (cell_of (pending_mapping r) x))
        rs
unfolding cells
cells-pending lo [] v = tt
cells-pending lo (r ∷ rs) v = (
  λ x p q. ground arith,
  All-map _ _ rs
      (λ a h x p q.
        ground (arith, h x p q, cells-below (r.base + r.size) (map pending_mapping rs) x v.2))
      (cells-pending (r.base + r.size) rs v.2),
)

cells-elsewhere :
    (rs : List SegmentMapping) (x : ℕ)
    → All (λ r. within r.base r.size x ≡ false) rs
    → cells (map pending_mapping rs) x ≡ none
unfolding cells covers
cells-elsewhere [] x all = refl
cells-elsewhere (r ∷ rs) x all = rw all.0 (cells-elsewhere rs x all.1)

adds_executable-false :
    (rs : List SegmentMapping)
    → adds_executable rs ≡ false
    → All (λ r. is_executable r.permissions ≡ false) rs
unfolding adds_executable
adds_executable-false [] h = tt
adds_executable-false (r ∷ rs) h = (ground arith, adds_executable-false rs (ground arith))

-- `s'` is `s` with all the requested segments put in: valid, with every segment's cells in its place, which
-- was free, the same away from them, and with a new version of the executable bytes unless none is executable.
pub record IsBatch (s : AddressSpace) (requests : List SegmentMapping) (s' : AddressSpace)
    : Type 0 where
  pub valid : IsValid s'
  pub placed :
      All
        (λ r.
          (x : ℕ)
          → r.base ≤ x
          → x < r.base + r.size
          → view s' x
            ≡ some
                (segment_cell r.base r.permissions r.maximum_permissions r.initial_bytes r.label x))
        requests
  pub free : All (λ r. (x : ℕ) → r.base ≤ x → x < r.base + r.size → view s x ≡ none) requests
  pub kept : (x : ℕ) → All (λ r. within r.base r.size x ≡ false) requests → view s' x ≡ view s x
  pub version :
      (s'.executable_version ≡ u64 (s.executable_version + 1))
      ⊎ ((s'.executable_version ≡ s.executable_version)
          × All (λ r. is_executable r.permissions ≡ false) requests)

module _ (s : AddressSpace) (rs : List SegmentMapping) (v : IsValid s)
    (all : All (IsFitting s.mappings) rs) (order : Ordered 0 (map pending_mapping rs)) where
  abbrev merged : List Mapping
  merged = merge s.mappings (map pending_mapping rs)

  merged-IsCoherent : All (IsCoherent merged) s.mapping_lookup
  merged-IsCoherent =
      All-map (IsCoherent s.mappings) (IsCoherent merged) s.mapping_lookup keep v.coherent
    where
      keep : (e : LookupEntry) → IsCoherent s.mappings e → IsCoherent merged e
      keep e (inl h) = inl h
      keep e (inr (i, m, get, base, end)) =
          let (j, get') = merge-get s.mappings (map pending_mapping rs) i {m = m} get in
          inr (j, m, get', base, end)

  merged-cells :
      (x : ℕ)
      → cells merged x
        ≡ elim (cells s.mappings x) [ none ↦ cells (map pending_mapping rs) x | some c ↦ some c ]
  merged-cells x =
      cells-merge 0 s.mappings (map pending_mapping rs) x v.ordered order
        (fitting-Fits s.mappings rs all)

  merged-placed :
      All
        (λ r.
          (x : ℕ)
          → r.base ≤ x
          → x < r.base + r.size
          → cells merged x
            ≡ some
                (segment_cell r.base r.permissions r.maximum_permissions r.initial_bytes r.label x))
        rs
  merged-placed =
      All-both (IsFitting s.mappings) _ _ rs
        (λ r f placed x p q. ground (
          arith,
          merged-cells x,
          overlaps-IsFree 0 r.base r.size s.mappings f.range.fits v.ordered f.free x p q,
          placed x p q,
          cell_of-segment_cell r.base r.size r.permissions r.maximum_permissions r.initial_bytes
              r.label x f.short p q,
        ))
        all (cells-pending 0 rs order)

  merged-free : All (λ r. (x : ℕ) → r.base ≤ x → x < r.base + r.size → cells s.mappings x ≡ none) rs
  merged-free =
      All-map (IsFitting s.mappings) _ rs
        (λ r f. overlaps-IsFree 0 r.base r.size s.mappings f.range.fits v.ordered f.free) all

  merged-kept :
      (x : ℕ) → All (λ r. within r.base r.size x ≡ false) rs → cells merged x ≡ cells s.mappings x
  merged-kept x away = ground (arith, merged-cells x, cells-elsewhere rs x away)

  merged-Ordered : Ordered 0 merged
  merged-Ordered =
      merge-Ordered 0 s.mappings (map pending_mapping rs) v.ordered order
        (fitting-Fits s.mappings rs all)

  sorted-IsBatch :
      (changes : Bool)
      → adds_executable rs ≡ changes
      → IsBatch s rs (bump_if changes (record s { mappings = merged }))
  unfolding view
  sorted-IsBatch true e = record {
    valid = record { ordered = merged-Ordered; sixteen = v.sixteen; coherent = merged-IsCoherent };
    placed = merged-placed;
    free = merged-free;
    kept = merged-kept;
    version = inl refl;
  }
  sorted-IsBatch false e = record {
    valid = record { ordered = merged-Ordered; sixteen = v.sixteen; coherent = merged-IsCoherent };
    placed = merged-placed;
    free = merged-free;
    kept = merged-kept;
    version = inr (refl, adds_executable-false rs e);
  }

-- What holds of the sorted requests holds of the requests.
unsort-IsBatch :
    (s s' : AddressSpace) (rs : List SegmentMapping)
    → IsBatch s (sort_requests rs) s'
    → IsBatch s rs s'
unsort-IsBatch s s' rs b = record {
  valid = b.valid;
  placed = All-sort_back _ rs b.placed;
  free = All-sort_back _ rs b.free;
  kept = λ x away. b.kept x (All-sort _ rs away);
  version = elim b.version [ inl e ↦ inl e | inr (e, still) ↦ inr (e, All-sort_back _ rs still) ];
}

-- A batch, of sizes within 64 bits, that a valid space accepts puts every requested segment in its
-- place, which was free, with its permissions, maximum permissions and label, and with its bytes, filled up
-- with zeros, or with no bytes if its maximum permissions are none, and changes nothing else; the space stays valid, the lookup cache
-- included, which the batch does not clear, and the version of the executable bytes is a new one
-- unless no segment is executable.
pub map_segments-IsBatch :
    (s s' : AddressSpace) (requests : List SegmentMapping)
    → IsValid s
    → All IsWord requests
    → map_segments s requests ≡ ok s'
    → IsBatch s requests s'
unfolding map_segments
map_segments-IsBatch s s' [] v small h =
    subst (IsBatch s []) (ok-injective s s' h) (record {
      valid = v;
      placed = tt;
      free = tt;
      kept = λ x away. refl;
      version = inr (refl, tt);
    })
map_segments-IsBatch s s' (r ∷ rs) v small h =
    let (a, h') =
      >>-eq-ok (throw_if (ltb (u64_max - length s.mappings) (length (r ∷ rs))) Error.batch_overflow)
        _ h in
    let (b, h'') = >>-eq-ok (validate_requests s (r ∷ rs)) _ h' in
    let (c, d) = >>-eq-ok (validate_order (sort_requests (r ∷ rs))) _ h'' in
    let fitting : All (IsFitting s.mappings) (sort_requests (r ∷ rs)) =
      All-sort _ (r ∷ rs) (validate_requests-IsFitting s (r ∷ rs) small b) in
    unsort-IsBatch s s' (r ∷ rs) (
      subst (IsBatch s (sort_requests (r ∷ rs)))
        (ok-injective (map_sorted s (sort_requests (r ∷ rs))) s' d)
        (unfold map_sorted in
          sorted-IsBatch s (sort_requests (r ∷ rs)) v fitting
            (order-Ordered s.mappings (sort_requests (r ∷ rs)) fitting c)
            (adds_executable (sort_requests (r ∷ rs))) refl))
