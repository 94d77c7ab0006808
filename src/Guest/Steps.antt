-- ===== src/Guest/Steps.antt =====
-- The operations of AddressSpace.cpp and MappingBatch.cpp (src/guest) as a state machine.
pub mod Executable
use rosa.Prelude.{
  ℕ, zero, suc, ◌+◌, ◌-◌, ◌*◌, ◌/◌, ◌%◌, ◌^◌, ◌≤◌, ◌<◌, min, max, bit_and, bit_or, bit_xor, ◌≡◌,
  refl, sym, ap, ◌∙◌, subst, ◌≢◌, ◌↔◌, ◌⊎◌, inl, inr, Bool, true, false, not, ◌&&◌, ◌||◌, Option,
  none, some, List, [], ◌∷◌, ◌++◌, arith, ltb, leb, ◌==◌, if◌then◌else◌, Bool-cases, Option-cases,
  length, get_elem?, set, take, drop, replicate, All, u32, u64, u32_max, u64_max,
}
use Prim.Native.String.{String}
use mathlib.Core.Option
use rosa.Guest.Mapping.{Mapping, Permission, is_executable}
use rosa.Guest.Space.{AddressSpace, ok, empty_space, map_segment, map_anonymous, ok-injective}
use rosa.Guest.Invariant.{IsValid, empty_space-IsValid}
use rosa.Guest.View.{Cell, view, covers, cell_of, cells-mapping_at}
use rosa.Guest.Create.{Creates, map_segment-Creates, map_anonymous-Creates}
use rosa.Guest.Pages.{PageRange, page_range}
use rosa.Guest.Protect.{ProtectResult, protect}
use rosa.Guest.Protect.Correct.{Promise, IsProtected, protect_lem}
use rosa.Guest.Deallocate.{DeallocateResult, deallocate}
use rosa.Guest.Deallocate.Correct.{IsDeallocated, deallocate_lem}
use rosa.Guest.Lookup.{find}
use rosa.Guest.Lookup.Correct.{find-IsFound}
use rosa.Guest.Batch.{SegmentMapping, map_segments, pending_mapping}
use rosa.Guest.Batch.Correct.{IsBatch, IsWord, map_segments-IsBatch}

-- One operation, with any arguments; a call that throws is no step.
pub data Step (s t : AddressSpace) : Type 0 where
  segment :
      (base size : ℕ) (permissions maximum : Permission) (bytes : List ℕ) (label : String)
      → size ≤ u64_max
      → map_segment s base size permissions maximum bytes label ≡ ok t
      → Step s t
  anonymous :
      (base size : ℕ) (permissions maximum : Permission) (label : String) (mmap : Option ℕ)
      → size ≤ u64_max
      → map_anonymous s base size permissions maximum label mmap ≡ ok t
      → Step s t
  batch :
      (requests : List SegmentMapping)
      → All IsWord requests
      → map_segments s requests ≡ ok t
      → Step s t
  protects :
      (address size : ℕ) (permissions : Permission) (private_copy : Bool) (result : ProtectResult)
      → protect s address size permissions private_copy ≡ ok (result, t)
      → Step s t
  deallocates :
      (address size : ℕ) (result : DeallocateResult)
      → deallocate s address size ≡ ok (result, t)
      → Step s t
  finds :
      (address size : ℕ) (required : Permission)
      → 0 < size
      → t ≡ (find s address size required).1
      → Step s t

pub data Reach (s : AddressSpace) : AddressSpace → Type 0 where
  here : Reach s s
  next : {t u : AddressSpace} → Reach s t → Step t u → Reach s u

protect-zero :
    (s : AddressSpace) (address size : ℕ) (permissions : Permission) (private_copy : Bool)
    → (size == 0) ≡ true
    → protect s address size permissions private_copy ≡ ok (ProtectResult.success, s)
unfolding protect
protect-zero s address size permissions private_copy e = rw e refl

protect-overflow :
    (s : AddressSpace) (address size : ℕ) (permissions : Permission) (private_copy : Bool)
    → (size == 0) ≡ false
    → page_range address size ≡ none
    → protect s address size permissions private_copy ≡ ok (ProtectResult.invalid_argument, s)
unfolding protect
protect-overflow s address size permissions private_copy e over = rw (e, over) refl

protect-Promise :
    (s t : AddressSpace) (address size : ℕ) (permissions : Permission) (private_copy : Bool)
    (v : IsValid s) (r : PageRange) (pos : 0 < size) (range : page_range address size ≡ some r)
    (result : ProtectResult)
    → Promise s address size permissions private_copy v r pos range (ok (result, t))
    → (t ≡ s)
      ⊎ ((r : PageRange) × (pos : 0 < size) × (e : page_range address size ≡ some r) × IsProtected s
            address size permissions private_copy v r pos e t)
protect-Promise s t address size permissions private_copy v r pos range ProtectResult.success p =
    inr (r, pos, range, p.1)
protect-Promise s t address size permissions private_copy v r pos range
      ProtectResult.invalid_address p =
    inl p.0
protect-Promise s t address size permissions private_copy v r pos range
      ProtectResult.protection_failure p =
    inl p.0
protect-Promise s t address size permissions private_copy v r pos range
      ProtectResult.invalid_argument p =
    absurd p

deallocate-zero :
    (s : AddressSpace) (address size : ℕ)
    → (size == 0) ≡ true
    → deallocate s address size ≡ ok (DeallocateResult.success, s)
unfolding deallocate
deallocate-zero s address size e = rw e refl

deallocate-overflow :
    (s : AddressSpace) (address size : ℕ)
    → (size == 0) ≡ false
    → page_range address size ≡ none
    → deallocate s address size ≡ ok (DeallocateResult.invalid_argument, s)
unfolding deallocate
deallocate-overflow s address size e over = rw (e, over) refl

-- A call of `protect` that returns leaves the space, or protects a range of it.
pub protect_cases :
    (s t : AddressSpace) (address size : ℕ) (permissions : Permission) (private_copy : Bool)
    (result : ProtectResult) (v : IsValid s)
    → protect s address size permissions private_copy ≡ ok (result, t)
    → (t ≡ s)
      ⊎ ((r : PageRange) × (pos : 0 < size) × (e : page_range address size ≡ some r) × IsProtected s
            address size permissions private_copy v r pos e t)
protect_cases s t address size permissions private_copy result v h = elim (Bool-cases (size == 0)) [
  | inl e ↦ inl (cc (h, protect-zero s address size permissions private_copy e))
  | inr e ↦ elim (Option-cases (page_range address size)) [
    | inl over ↦ inl (cc (h, protect-overflow s address size permissions private_copy e over))
    | inr (r, range) ↦
        let pos : 0 < size = ground arith in
        protect-Promise s t address size permissions private_copy v r pos range result (
          subst (Promise s address size permissions private_copy v r pos range) h
            (protect_lem s address size permissions private_copy v r pos range))
  ]
]

pub deallocate_cases :
    (s t : AddressSpace) (address size : ℕ) (result : DeallocateResult) (v : IsValid s)
    → deallocate s address size ≡ ok (result, t)
    → (t ≡ s)
      ⊎ ((r : PageRange) × (pos : 0 < size) × (e : page_range address size ≡ some r) × IsDeallocated
            s address size v r pos e t)
deallocate_cases s t address size result v h = elim (Bool-cases (size == 0)) [
  | inl e ↦ inl (cc (h, deallocate-zero s address size e))
  | inr e ↦ elim (Option-cases (page_range address size)) [
    | inl over ↦ inl (cc (h, deallocate-overflow s address size e over))
    | inr (r, range) ↦
        let pos : 0 < size = ground arith in
        let (u, there, d) = deallocate_lem s address size v r pos range in
        let same : u ≡ t = cc (h, there) in
        inr (r, pos, range, subst (IsDeallocated s address size v r pos range) same d)
  ]
]

pub Step-IsValid : {s t : AddressSpace} → Step s t → IsValid s → IsValid t
Step-IsValid {s} {t} (segment base size permissions maximum bytes label small h) v =
    (map_segment-Creates s base size permissions maximum label v small bytes h).valid
Step-IsValid {s} {t} (anonymous base size permissions maximum label mmap small h) v =
    (map_anonymous-Creates s base size permissions maximum label v small mmap h).valid
Step-IsValid {s} {t} (batch requests small h) v =
    (map_segments-IsBatch s t requests v small h).valid
Step-IsValid {s} {t} (protects address size permissions private_copy result h) v =
    elim (protect_cases s t address size permissions private_copy result v h) [
      | inl e ↦ subst IsValid (sym e) v
      | inr (r, pos, e, p) ↦ p.valid
    ]
Step-IsValid {s} {t} (deallocates address size result h) v =
    elim (deallocate_cases s t address size result v h) [
      | inl e ↦ subst IsValid (sym e) v
      | inr (r, pos, e, d) ↦ d.valid
    ]
Step-IsValid {s} {t} (finds address size required pos e) v =
    subst IsValid (sym e) (find-IsFound s address size required v pos).valid

-- Every state that creations of mappings, batches, protections, deallocations and searches, failed
-- searches and reported failures included, with sizes within 64 bits, reach from the empty space
-- is valid: the mappings are aligned, ordered, disjoint, within 64 bits and within their maximum
-- permissions, and every entry of the lookup cache agrees with the table.
pub Reach-IsValid : {t : AddressSpace} → Reach empty_space t → IsValid t
Reach-IsValid here = empty_space-IsValid
Reach-IsValid (next r st) = Step-IsValid st (Reach-IsValid r)
