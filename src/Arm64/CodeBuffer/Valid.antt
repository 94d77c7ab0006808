-- ===== src/Arm64/CodeBuffer/Valid.antt =====
-- What a valid arena of src/arm64/CodeBuffer.cpp is, and the end of `reserve`.
use rosa.Prelude.{
  All-at, All-map, ℕ, zero, suc, ◌+◌, ◌-◌, ◌%◌, ◌^◌, ◌≤◌, ◌≡◌, refl, ap, ◌⊎◌, inl, inr, ◌||◌,
  Option, none, some, List, [], ◌∷◌, arith, ltb, Bool-cases, get_elem?, All, u64_max,
}
use rosa.Arm64.CodeBuffer.{Chunk, Allocation, ExecutableArena, take_bytes}
use mathlib.Core.Option.{some-injective}

abbrev pub IsChunk : Chunk → Type 0
IsChunk c = (c.used ≤ c.size) × (c.mapping + c.size ≤ 2 ^ 64) × (c.mapping % 16 ≡ 0)

abbrev pub Apart : Chunk → Chunk → Type 0
Apart c d = (c.mapping + c.size ≤ d.mapping) ⊎ (d.mapping + d.size ≤ c.mapping)

abbrev pub Separated : List Chunk → Type 0
Separated [] = Unit
Separated (c ∷ cs) = All (Apart c) cs × Separated cs

-- The allocation lies in the used part of a chunk.
pub record Holds (chunks : List Chunk) (a : Allocation) : Type 0 where
  pub index : ℕ
  pub chunk : Chunk
  pub there : get_elem? chunks index ≡ some chunk
  pub low : chunk.mapping ≤ a.address
  pub high : a.address + a.size ≤ chunk.mapping + chunk.used
  pub aligned : a.address % 16 ≡ 0

abbrev pub Clear : Allocation → Allocation → Type 0
Clear a b = (a.address + a.size ≤ b.address) ⊎ (b.address + b.size ≤ a.address)

abbrev pub Distinct : List Allocation → Type 0
Distinct [] = Unit
Distinct (a ∷ rest) = All (Clear a) rest × Distinct rest

abbrev pub total_used : List Chunk → ℕ
total_used [] = 0
total_used (c ∷ cs) = c.used + total_used cs

abbrev pub total_size : List Chunk → ℕ
total_size [] = 0
total_size (c ∷ cs) = c.size + total_size cs

-- The arena and the allocations that it has given out.
pub record IsValid (arena : ExecutableArena) (live : List Allocation) : Type 0 where
  pub chunks : All IsChunk arena.chunks
  pub separated : Separated arena.chunks
  pub held : All (Holds arena.chunks) live
  pub distinct : Distinct live
  pub used : arena.used_bytes ≡ total_used arena.chunks
  pub allocated : arena.allocated_bytes ≡ total_size arena.chunks
  pub bounded : arena.allocated_bytes ≤ u64_max

abbrev pub with_new : Option Allocation → List Allocation → List Allocation
with_new none live = live
with_new (some a) live = a ∷ live

-- What is documented of mmap: a mapping starts at a page, is within the address space and overlaps no other.
abbrev pub IsFresh : List Chunk → (ℕ → Option ℕ) → Type 0
IsFresh chunks mmap =
    (size mapping : ℕ)
    → mmap size ≡ some mapping
    → (mapping % 4096 ≡ 0)
      × (mapping + size ≤ 2 ^ 64)
      × All (Apart (record { mapping = mapping; size = size; used = 0 })) chunks

abbrev filled : Chunk → ℕ → Chunk
filled chunk used = record chunk { used = used }

Holds-filled :
    (chunk : Chunk) (older : List Chunk) (used : ℕ) (a : Allocation)
    → chunk.used ≤ used
    → Holds (chunk ∷ older) a
    → Holds (filled chunk used ∷ older) a
Holds-filled chunk older used a more h = go h.index h.there
  where
    go :
        (index : ℕ)
        → get_elem? (chunk ∷ older) index ≡ some h.chunk
        → Holds (filled chunk used ∷ older) a
    go zero e =
        let same : chunk ≡ h.chunk = some-injective _ _ e in
        let base : chunk.mapping ≡ h.chunk.mapping = ap (λ (c : Chunk). c.mapping) same in
        let end : chunk.used ≡ h.chunk.used = ap (λ (c : Chunk). c.used) same in
        record {
          index = 0;
          chunk = filled chunk used;
          there = refl;
          low = omega (arith, h.low, base);
          high = omega (arith, h.high, base, end, more);
          aligned = h.aligned;
        }
    go (suc index) e = record {
      index = suc index;
      chunk = h.chunk;
      there = e;
      low = h.low;
      high = h.high;
      aligned = h.aligned;
    }

pub Holds-older :
    (chunk : Chunk) (older : List Chunk) (a : Allocation) → Holds older a → Holds (chunk ∷ older) a
Holds-older chunk older a h = record {
  index = suc h.index;
  chunk = h.chunk;
  there = h.there;
  low = h.low;
  high = h.high;
  aligned = h.aligned;
}

-- A place behind what is used of the last chunk is clear of what the chunks hold.
Holds-Clear :
    (chunk : Chunk) (older : List Chunk) (offset size : ℕ) (a : Allocation)
    → chunk.used ≤ offset
    → offset + size ≤ chunk.size
    → All IsChunk older
    → All (Apart chunk) older
    → Holds (chunk ∷ older) a
    → Clear (record { address = chunk.mapping + offset; size = size }) a
Holds-Clear chunk older offset size a behind fits ok apart h = go h.index h.there
  where
    go :
        (index : ℕ)
        → get_elem? (chunk ∷ older) index ≡ some h.chunk
        → Clear (record { address = chunk.mapping + offset; size = size }) a
    go zero e =
        let same : chunk ≡ h.chunk = some-injective _ _ e in
        let base : chunk.mapping ≡ h.chunk.mapping = ap (λ (c : Chunk). c.mapping) same in
        let end : chunk.used ≡ h.chunk.used = ap (λ (c : Chunk). c.used) same in
        inr (omega (arith, h.high, base, end, behind))
    go (suc index) e =
        let one : IsChunk h.chunk = All-at IsChunk older index h.chunk ok e in
        elim (All-at (Apart chunk) older index h.chunk apart e) [
          | inl below ↦ inl (omega (arith, below, fits, h.low))
          | inr above ↦ inr (omega (arith, above, h.high, one.0))
        ]

pub take_bytes-IsValid :
    (arena : ExecutableArena) (chunk : Chunk) (older : List Chunk) (offset size : ℕ)
    (live : List Allocation)
    → IsValid (record arena { chunks = chunk ∷ older }) live
    → chunk.used ≤ offset
    → offset + size ≤ chunk.size
    → offset % 16 ≡ 0
    → IsValid
        (take_bytes arena chunk older offset size).0
        (with_new (take_bytes arena chunk older offset size).1 live)
unfolding take_bytes
take_bytes-IsValid arena chunk older offset size live v behind fits even =
    elim (Bool-cases (
      ltb (u64_max - size) offset
      || ltb (u64_max - arena.used_bytes) (offset + size - chunk.used))) [
        | inl full ↦ rw full v
        | inr room ↦ rw room (record {
          chunks = ((fits, v.chunks.0.1, v.chunks.0.2), v.chunks.1);
          separated = (v.separated.0, v.separated.1);
          held = (
            record {
              index = 0;
              chunk = filled chunk (offset + size);
              there = refl;
              low = omega arith;
              high = omega arith;
              aligned = omega (arith, even, v.chunks.0.2);
            },
            All-map _ _ live
                (λ a. Holds-filled chunk older (offset + size) a (omega (arith, behind))) v.held,
          );
          distinct = (
            All-map _ _ live
                (λ a. Holds-Clear chunk older offset size a behind fits v.chunks.1 v.separated.0)
                v.held,
            v.distinct,
          );
          used = omega (arith, v.used, behind);
          allocated = v.allocated;
          bounded = v.bounded;
        })
      ]
