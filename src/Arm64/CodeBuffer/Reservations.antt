-- ===== src/Arm64/CodeBuffer/Reservations.antt =====
-- The places that the arena of src/arm64/CodeBuffer.cpp gives out, as calls go on.
use rosa.Prelude.{
  All-map, ℕ, ◌+◌, ◌-◌, ◌%◌, ◌≤◌, ◌<◌, max, ◌≡◌, refl, subst, inl, inr, false, ◌||◌, Option, some,
  List, [], ◌∷◌, arith, ltb, ◌==◌, Bool-cases, Option-cases, All, u64_max,
}
use rosa.Arm64.CodeBuffer.{
  Chunk, Allocation, ExecutableArena, empty_arena, round_up, take_bytes, allocation_size, grow,
  reserve_from, reserve,
}
use mathlib.Core.Option.{some-injective}
use rosa.Arm64.CodeBuffer.Valid.{
  IsChunk, IsValid, with_new, IsFresh, Holds-older, take_bytes-IsValid, total_used, total_size,
}

round_up-le : (value alignment r : ℕ) → round_up value alignment ≡ some r → value ≤ r
unfolding round_up
round_up-le value alignment r e = elim (Bool-cases (alignment == 0)) [
  | inl nothing ↦ absurd (ground arith)
  | inr some_ ↦ elim (Bool-cases (value % alignment == 0)) [
    | inl even ↦ omega (arith, some-injective _ _ (rw (some_, even, round_up) at e))
    | inr odd ↦ elim (Bool-cases (ltb (u64_max - (alignment - value % alignment)) value)) [
      | inl full ↦ absurd (ground arith)
      | inr room ↦ omega (arith, some-injective _ _ (rw (some_, odd, room, round_up) at e))
    ]
  ]
]

round_up-16 : (value r : ℕ) → round_up value 16 ≡ some r → r % 16 ≡ 0
unfolding round_up
round_up-16 value r e = elim (Bool-cases (value % 16 == 0)) [
  | inl even ↦ ground (arith, some-injective _ _ (rw (even, round_up) at e))
  | inr odd ↦ elim (Bool-cases (ltb (u64_max - (16 - value % 16)) value)) [
    | inl full ↦ absurd (ground arith)
    | inr room ↦ omega (arith, some-injective _ _ (rw (odd, room, round_up) at e))
  ]
]

allocation_size-le :
    (arena : ExecutableArena) (size allocated : ℕ)
    → allocation_size arena size ≡ some allocated
    → size ≤ allocated
unfolding allocation_size
allocation_size-le arena size allocated e = elim (Option-cases (round_up size 16)) [
  | inl nothing ↦ absurd (ground arith)
  | inr (required, is) ↦ omega (
    arith,
    round_up-le size 16 required is,
    round_up-le (max arena.chunk_size required) arena.page_size allocated
        (rw (is, allocation_size) at e),
  )
]

used-le-size : (chunks : List Chunk) → All IsChunk chunks → total_used chunks ≤ total_size chunks
used-le-size [] h = omega arith
used-le-size (c ∷ cs) h = omega (arith, h.0.0, used-le-size cs h.1)

-- In the end of `reserve` no count can overflow.
take_bytes_gives :
    (arena : ExecutableArena) (chunk : Chunk) (older : List Chunk) (offset size : ℕ)
    (live : List Allocation)
    → IsValid (record arena { chunks = chunk ∷ older }) live
    → chunk.used ≤ offset
    → offset + size ≤ chunk.size
    → (take_bytes arena chunk older offset size).1
      ≡ some (record { address = chunk.mapping + offset; size = size })
unfolding take_bytes
take_bytes_gives arena chunk older offset size live v behind fits =
    let room : (ltb (u64_max - size) offset
          || ltb (u64_max - arena.used_bytes) (offset + size - chunk.used))
        ≡ false =
      ground (arith, v.used, v.allocated, v.bounded, used-le-size older v.chunks.1) in
    rw room refl

round_up_given : (value : ℕ) → value + 16 ≤ u64_max → (r : ℕ) × (round_up value 16 ≡ some r)
unfolding round_up
round_up_given value small = elim (Bool-cases (value % 16 == 0)) [
  | inl even ↦ (value, rw (even, round_up) refl)
  | inr odd ↦
      let room : ltb (u64_max - (16 - value % 16)) value ≡ false = ground arith in
      (value + (16 - value % 16), rw (odd, room, round_up) refl)
]

allocation_size-16 :
    (arena : ExecutableArena) (size allocated : ℕ)
    → 0 < size
    → allocation_size arena size ≡ some allocated
    → 16 ≤ allocated
unfolding allocation_size
allocation_size-16 arena size allocated pos e = elim (Option-cases (round_up size 16)) [
  | inl nothing ↦ absurd (ground arith)
  | inr (required, is) ↦ omega (
    arith,
    round_up-le size 16 required is,
    round_up-16 size required is,
    round_up-le (max arena.chunk_size required) arena.page_size allocated
        (rw (is, allocation_size) at e),
  )
]

module _ (arena : ExecutableArena) (live : List Allocation) (size : ℕ) (mmap : ℕ → Option ℕ)
    (v : IsValid arena live) (fresh : IsFresh arena.chunks mmap) where
  -- A new chunk.
  grown-IsValid :
      (allocated mapping : ℕ)
      → arena.allocated_bytes + allocated ≤ u64_max
      → mmap allocated ≡ some mapping
      → IsValid
          (record arena {
            allocated_bytes = arena.allocated_bytes + allocated;
            chunks = record { mapping = mapping; size = allocated; used = 0 } ∷ arena.chunks;
          })
          live
  grown-IsValid allocated mapping room given =
      let (page, top, apart) = fresh allocated mapping given in
      record {
        chunks = ((omega arith, top, omega (arith, page)), v.chunks);
        separated = (apart, v.separated);
        held = All-map _ _ live (Holds-older _ arena.chunks) v.held;
        distinct = v.distinct;
        used = omega (arith, v.used);
        allocated = omega (arith, v.allocated);
        bounded = room;
      }

  grow-IsValid : IsValid (grow arena size mmap).0 (with_new (grow arena size mmap).1 live)
  unfolding grow
  grow-IsValid = elim (Option-cases (allocation_size arena size)) [
    | inl nothing ↦ rw (nothing, grow) v
    | inr (allocated, is) ↦ elim (Bool-cases (ltb (u64_max - arena.allocated_bytes) allocated)) [
      | inl full ↦ rw (is, full, grow) v
      | inr room ↦ elim (Option-cases (mmap allocated)) [
        | inl failed ↦ rw (is, room, failed, grow) v
        | inr (mapping, given) ↦
            rw (is, room, given, grow)
              (take_bytes-IsValid
                (record arena { allocated_bytes = arena.allocated_bytes + allocated }) _
                arena.chunks 0 size live
                (grown-IsValid allocated mapping (ground (arith, v.bounded)) given) (omega arith)
                (omega (arith, allocation_size-le arena size allocated is)) refl)
      ]
    ]
  ]

  reserve_from-IsValid :
      (chunks : List Chunk)
      → arena.chunks ≡ chunks
      → IsValid
          (reserve_from arena chunks size mmap).0
          (with_new (reserve_from arena chunks size mmap).1 live)
  unfolding reserve_from
  reserve_from-IsValid [] e = grow-IsValid
  reserve_from-IsValid (chunk ∷ older) e = elim (Option-cases (round_up chunk.used 16)) [
    | inl nothing ↦ rw (nothing, reserve_from) v
    | inr (offset, is) ↦
        elim (Bool-cases (ltb chunk.size offset || ltb (chunk.size - offset) size)) [
          | inl full ↦ rw (is, full, reserve_from) grow-IsValid
          | inr room ↦
              let w : IsValid (record arena { chunks = chunk ∷ older }) live =
                subst (λ (cs : List Chunk). IsValid (record arena { chunks = cs }) live) e v in
              rw (is, room, reserve_from)
                (take_bytes-IsValid arena chunk older offset size live w
                  (round_up-le chunk.used 16 offset is) (ground arith)
                  (round_up-16 chunk.used offset is))
        ]
  ]

  reserve-IsValid : IsValid (reserve arena size mmap).0 (with_new (reserve arena size mmap).1 live)
  unfolding reserve
  reserve-IsValid = elim (Bool-cases (size == 0)) [
    | inl nothing ↦ rw nothing v
    | inr something ↦ rw something (reserve_from-IsValid arena.chunks refl)
  ]

  grow_gives :
      (allocated mapping : ℕ)
      → allocation_size arena size ≡ some allocated
      → arena.allocated_bytes + allocated ≤ u64_max
      → mmap allocated ≡ some mapping
      → (grow arena size mmap).1 ≡ some (record { address = mapping + 0; size = size })
  unfolding grow
  grow_gives allocated mapping is room given =
      let free : ltb (u64_max - arena.allocated_bytes) allocated ≡ false = ground arith in
      rw (is, free, given, grow)
        (take_bytes_gives (record arena { allocated_bytes = arena.allocated_bytes + allocated }) _
          arena.chunks 0 size live (grown-IsValid allocated mapping room given) (omega arith)
          (omega (arith, allocation_size-le arena size allocated is)))

  reserve_from_gives :
      (chunks : List Chunk) (allocated mapping : ℕ)
      → arena.chunks ≡ chunks
      → 0 < size
      → allocation_size arena size ≡ some allocated
      → arena.allocated_bytes + allocated ≤ u64_max
      → mmap allocated ≡ some mapping
      → (a : Allocation) × ((reserve_from arena chunks size mmap).1 ≡ some a) × (a.size ≡ size)
  unfolding reserve_from
  reserve_from_gives [] allocated mapping e pos is room given = (
    record { address = mapping + 0; size = size },
    grow_gives allocated mapping is room given,
    refl,
  )
  reserve_from_gives (chunk ∷ older) allocated mapping e pos is room given =
      let w : IsValid (record arena { chunks = chunk ∷ older }) live =
        subst (λ (cs : List Chunk). IsValid (record arena { chunks = cs }) live) e v in
      let (offset, rounded) = round_up_given chunk.used (
        omega (
          arith,
          w.allocated,
          used-le-size older w.chunks.1,
          w.chunks.0.0,
          allocation_size-16 arena size allocated pos is,
        )) in
      elim (Bool-cases (ltb chunk.size offset || ltb (chunk.size - offset) size)) [
        | inl full ↦ (
          record { address = mapping + 0; size = size },
          rw (rounded, full, reserve_from) (grow_gives allocated mapping is room given),
          refl,
        )
        | inr fits ↦ (
          record { address = chunk.mapping + offset; size = size },
          rw (rounded, fits, reserve_from)
              (take_bytes_gives arena chunk older offset size live w
                (round_up-le chunk.used 16 offset rounded) (ground arith)),
          refl,
        )
      ]

  -- A reservation from a valid arena of at least one byte gives a place of that size, if the size of a new
  -- chunk for it can be computed and added to the bytes allocated within 64 bits, and mmap gives such a
  -- chunk, fresh as documented.
  pub reserve_gives :
      (allocated mapping : ℕ)
      → 0 < size
      → allocation_size arena size ≡ some allocated
      → arena.allocated_bytes + allocated ≤ u64_max
      → mmap allocated ≡ some mapping
      → (a : Allocation) × ((reserve arena size mmap).1 ≡ some a) × (a.size ≡ size)
  unfolding reserve
  reserve_gives allocated mapping some_bytes is room given =
      let filled : (size == 0) ≡ false = ground arith in
      rw (filled, reserve)
        (reserve_from_gives arena.chunks allocated mapping refl some_bytes is room given)

-- Any number of reservations from an empty arena, those that throw included, and the live allocations.
pub data Reserves (chunk_size page_size : ℕ) : ExecutableArena → List Allocation → Type 0 where
  start : Reserves chunk_size page_size (empty_arena chunk_size page_size) []
  then_reserve :
      {arena : ExecutableArena} {live : List Allocation} (size : ℕ) (mmap : ℕ → Option ℕ)
      → Reserves chunk_size page_size arena live
      → IsFresh arena.chunks mmap
      → Reserves chunk_size page_size
          (reserve arena size mmap).0
          (with_new (reserve arena size mmap).1 live)

-- After any number of reservations, where mmap gives page-aligned mappings within the address space that
-- overlap no earlier chunk: the allocations start at multiples of 16, lie within the used parts of chunks
-- and do not overlap, no chunk is used beyond its size, and the counts of used and allocated bytes are the
-- sums over the chunks.
pub Reserves-IsValid :
    {chunk_size page_size : ℕ} {arena : ExecutableArena} {live : List Allocation}
    → Reserves chunk_size page_size arena live
    → IsValid arena live
Reserves-IsValid start = record {
  chunks = tt;
  separated = tt;
  held = tt;
  distinct = tt;
  used = refl;
  allocated = refl;
  bounded = omega arith;
}
Reserves-IsValid (then_reserve size mmap r fresh) =
    reserve-IsValid _ _ size mmap (Reserves-IsValid r) fresh
