-- ===== src/Guest/Invariant.antt =====
-- The well-formedness of an address space: its table of mappings and its lookup cache.
use rosa.Prelude.{
  All-replicate, false, All, ℕ, zero, suc, ◌+◌, ◌*◌, ◌%◌, ◌≤◌, ◌<◌, ◌≡◌, true, ◌⊎◌, inl, some, List,
  [], ◌∷◌, arith, length, get_elem?, refl,
}
use rosa.Guest.Mapping.{Mapping, has_permission, end_of}
use rosa.Guest.Space.{AddressSpace, previous_of, LookupEntry, no_entry, empty_lookup, empty_space}

-- The vectors of a mapping are empty or hold one byte for each address.
abbrev pub Fills : List ℕ → ℕ → Type 0
Fills bytes size = (bytes ≡ []) ⊎ (length bytes ≡ size)

pub record IsMapping (m : Mapping) : Type 0 where
  pub not_empty : 0 < m.size
  pub base_aligned : m.base % 4096 ≡ 0
  pub size_aligned : m.size % 4096 ≡ 0
  pub fits : m.base + m.size < 0x1_0000_0000_0000_0000
  pub permitted : has_permission m.maximum_permissions m.permissions ≡ true
  pub bytes_fill : Fills m.bytes m.size
  pub readable_fill : Fills m.readable_bytes m.size

-- From `lo` upwards the mappings follow one another without overlap.
abbrev pub Ordered : ℕ → List Mapping → Type 0
Ordered lo [] = Unit {0}
Ordered lo (m ∷ ms) = (lo ≤ m.base) × IsMapping m × Ordered (m.base + m.size) ms

pub Ordered-lower : (lo lo' : ℕ) (ms : List Mapping) → lo ≤ lo' → Ordered lo' ms → Ordered lo ms
Ordered-lower lo lo' [] h v = tt
Ordered-lower lo lo' (m ∷ ms) h v = (omega arith, v.1, v.2)

pub end_of-eq : {m : Mapping} → IsMapping m → end_of m ≡ m.base + m.size
end_of-eq v = omega (arith, v.fits)

-- A table of mappings is far smaller than the 64-bit range.
pub Ordered-length :
    (lo : ℕ) (ms : List Mapping)
    → lo ≤ 0x1_0000_0000_0000_0000
    → Ordered lo ms
    → lo + 4096 * length ms ≤ 0x1_0000_0000_0000_0000
Ordered-length lo [] h v = omega arith
Ordered-length lo (m ∷ ms) h v = omega (
  arith,
  v.1.not_empty,
  v.1.size_aligned,
  v.1.fits,
  Ordered-length (m.base + m.size) ms (omega (arith, v.1.fits)) v.2,
)

-- Every mapping of the table is well formed and starts at or above `lo`.
pub Ordered-get :
    (lo : ℕ) (ms : List Mapping) (i : ℕ) {m : Mapping}
    → Ordered lo ms
    → get_elem? ms i ≡ some m
    → IsMapping m × (lo ≤ m.base)
Ordered-get lo [] i v h = ground arith
Ordered-get lo (n ∷ ms) zero {m} v h = ground arith
Ordered-get lo (n ∷ ms) (suc i) v h =
    let (good, above) = Ordered-get (n.base + n.size) ms i v.2 h in (good, omega arith)

pub Ordered-previous :
    (lo : ℕ) (ms : List Mapping) (i : ℕ) {m : Mapping}
    → Ordered lo ms
    → previous_of ms i ≡ some m
    → IsMapping m × (lo ≤ m.base)
unfolding previous_of
Ordered-previous lo ms zero v h = ground arith
Ordered-previous lo ms (suc i) v h = Ordered-get lo ms i v h

-- A valid cache entry stands for a mapping of the table, at whatever index.
abbrev pub IsCoherent : List Mapping → LookupEntry → Type 0
IsCoherent ms e =
    (e.valid ≡ false)
    ⊎ ((i : ℕ) × (m : Mapping) × (get_elem? ms i ≡ some m)
        × (m.base ≡ e.base)
        × (m.base + m.size ≡ e.end))

pub record IsValid (s : AddressSpace) : Type 0 where
  pub ordered : Ordered 0 s.mappings
  pub sixteen : length s.mapping_lookup ≡ 16
  pub coherent : All (IsCoherent s.mappings) s.mapping_lookup

pub empty_lookup-IsCoherent : (ms : List Mapping) → All (IsCoherent ms) empty_lookup
empty_lookup-IsCoherent ms = All-replicate (IsCoherent ms) 16 no_entry (inl refl)

pub empty_space-IsValid : IsValid empty_space
empty_space-IsValid = record { ordered = tt; sixteen = refl; coherent = empty_lookup-IsCoherent [] }
