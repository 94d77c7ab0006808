-- ===== src/Guest/View.antt =====
-- What an address space means to the guest: a partial function from addresses to cells. A cell
-- has the permissions, where its byte is stored, and the label; the table's split into mappings is
-- forgotten.
use rosa.Prelude.{
  inr, inl, Bool-cases, ℕ, zero, suc, ◌+◌, ◌-◌, ◌≤◌, ◌<◌, ◌≡◌, refl, Bool, Option, none, some, List,
  [], ◌∷◌, ◌&&◌, arith, leb, ltb, if◌then◌else◌, u64, get_elem?,
}
use mathlib.Core.Option
use Prim.Native.String.{String}
use rosa.Guest.Mapping.{Mapping, Permission}
use rosa.Guest.Space.{AddressSpace}
use rosa.Guest.Invariant.{Ordered, Ordered-get}

pub record Cell : Type 0 where
  pub permissions : Permission
  pub maximum_permissions : Permission
  pub byte : Option ℕ
  pub host : Option ℕ
  pub host_offset : ℕ
  pub lazy_file_transform : Option ℕ
  pub readable : Option ℕ
  pub label : String

unfoldable pub cell_of : Mapping → ℕ → Cell
cell_of m x =
    let offset = x - m.base in
    record {
      permissions = m.permissions;
      maximum_permissions = m.maximum_permissions;
      byte = get_elem? m.bytes offset;
      host = m.file_bytes;
      host_offset = u64 (m.file_data_offset + offset);
      lazy_file_transform = m.lazy_file_transform;
      readable = get_elem? m.readable_bytes offset;
      label = m.label;
    }

unfoldable pub covers : Mapping → ℕ → Bool
covers m x = leb m.base x && ltb x (m.base + m.size)

unfoldable pub mapping_at : List Mapping → ℕ → Option Mapping
unfolding covers
mapping_at [] x = none
mapping_at (m ∷ ms) x = if covers m x then some m else mapping_at ms x

unfoldable pub cells : List Mapping → ℕ → Option Cell
unfolding covers cell_of
cells [] x = none
cells (m ∷ ms) x = if covers m x then some (cell_of m x) else cells ms x

-- The abstract content of an address space.
unfoldable pub view : AddressSpace → ℕ → Option Cell
view s x = cells s.mappings x

pub mapping_at-below :
    (lo : ℕ) (ms : List Mapping) (x : ℕ) → Ordered lo ms → x < lo → mapping_at ms x ≡ none
unfolding mapping_at
mapping_at-below lo [] x v h = refl
mapping_at-below lo (m ∷ ms) x v h = ground (arith, mapping_at-below (m.base + m.size) ms x v.2)

pub cells-mapping_at :
    (ms : List Mapping) (x : ℕ) → cells ms x ≡ Option.map (λ m. cell_of m x) (mapping_at ms x)
unfolding cells mapping_at
cells-mapping_at [] x = refl
cells-mapping_at (m ∷ ms) x = ground (arith, cells-mapping_at ms x)

pub cells-below : (lo : ℕ) (ms : List Mapping) (x : ℕ) → Ordered lo ms → x < lo → cells ms x ≡ none
unfolding cells
cells-below lo [] x v h = refl
cells-below lo (m ∷ ms) x v h = ground (arith, cells-below (m.base + m.size) ms x v.2)

-- A mapping of the table is the one found at each of its addresses.
pub mapping_at-get :
    (lo : ℕ) (ms : List Mapping) (i x : ℕ) {m : Mapping}
    → Ordered lo ms
    → get_elem? ms i ≡ some m
    → m.base ≤ x
    → x < m.base + m.size
    → mapping_at ms x ≡ some m
unfolding mapping_at
mapping_at-get lo [] i x v h p q = ground arith
mapping_at-get lo (n ∷ ms) zero x v h p q = ground arith
mapping_at-get lo (n ∷ ms) (suc i) x v h p q = ground (
  arith,
  Ordered-get (n.base + n.size) ms i v.2 h,
  mapping_at-get (n.base + n.size) ms i x v.2 h p q,
)

-- What is found at an address covers it, and is a mapping of the table.
pub mapping_at_sound :
    (ms : List Mapping) (x : ℕ) {m : Mapping}
    → mapping_at ms x ≡ some m
    → (m.base ≤ x) × (x < m.base + m.size) × ((i : ℕ) × (get_elem? ms i ≡ some m))
unfolding mapping_at
mapping_at_sound [] x h = ground arith
mapping_at_sound (n ∷ ms) x {m} h = elim (Bool-cases (covers n x)) [
  | inl e ↦ (ground arith, ground arith, (0, ground arith))
  | inr e ↦ let (p, q, (i, r)) = mapping_at_sound ms x {m = m} (ground arith) in (p, q, (suc i, r))
]
