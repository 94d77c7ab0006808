-- ===== src/Arm64/CodeBuffer.antt =====
-- The memory of the translated code (src/arm64/CodeBuffer.h and CodeBuffer.cpp). Addresses and sizes are
-- numbers; what mmap gives is an argument. The vector of chunks stands with its back first.
pub mod Valid
pub mod Flush
pub mod Reservations
use rosa.Prelude.{
  ℕ, zero, suc, ◌+◌, ◌-◌, ◌*◌, ◌/◌, ◌%◌, ◌^◌, ◌≤◌, ◌<◌, min, max, bit_and, bit_or, bit_xor, ◌≡◌,
  refl, sym, ap, ◌∙◌, subst, ◌≢◌, ◌↔◌, ◌⊎◌, inl, inr, Bool, true, false, not, ◌&&◌, ◌||◌, Option,
  none, some, List, [], ◌∷◌, ◌++◌, arith, ltb, leb, ◌==◌, if◌then◌else◌, Bool-cases, Option-cases,
  length, get_elem?, set, take, drop, replicate, All, u32, u64, u32_max, u64_max,
}

pub record Chunk : Type 0 where
  pub mapping : ℕ
  pub size : ℕ
  pub used : ℕ

pub record Allocation : Type 0 where
  pub address : ℕ
  pub size : ℕ

pub record ExecutableArena : Type 0 where
  pub chunk_size : ℕ
  pub page_size : ℕ
  pub allocated_bytes : ℕ
  pub used_bytes : ℕ
  pub chunks : List Chunk

-- What a call leaves, and what it gives unless it throws.
abbrev pub Reserved : Type 0
Reserved = ExecutableArena × Option Allocation

abbrev pub empty_arena : (chunk_size page_size : ℕ) → ExecutableArena
empty_arena chunk_size page_size = record {
  chunk_size = chunk_size;
  page_size = page_size;
  allocated_bytes = 0;
  used_bytes = 0;
  chunks = [];
}

unfoldable pub round_up : (value alignment : ℕ) → Option ℕ
round_up value alignment =
    let padding = alignment - value % alignment in
    if alignment == 0
    then none
    else (if value % alignment == 0
        then some value
        else (if ltb (u64_max - padding) value then none else some (value + padding)))

-- The end of `reserve`: the bytes are taken from the last chunk.
unfoldable pub take_bytes :
    ExecutableArena → (chunk : Chunk) → (older : List Chunk) → (offset size : ℕ) → Reserved
take_bytes arena chunk older offset size =
    let consumed = offset + size - chunk.used in
    if ltb (u64_max - size) offset || ltb (u64_max - arena.used_bytes) consumed
    then (record arena { chunks = chunk ∷ older }, none)
    else (
      record arena {
        used_bytes = arena.used_bytes + consumed;
        chunks = record chunk { used = offset + size } ∷ older;
      },
      some (record { address = chunk.mapping + offset; size = size }),
    )

-- The size of a new chunk.
unfoldable pub allocation_size : ExecutableArena → (size : ℕ) → Option ℕ
unfolding round_up
allocation_size arena size = elim (round_up size 16) [
  | none ↦ none
  | some required ↦ round_up (max arena.chunk_size required) arena.page_size
]

-- No chunk has room.
unfoldable pub grow : ExecutableArena → (size : ℕ) → (mmap : ℕ → Option ℕ) → Reserved
unfolding allocation_size take_bytes
grow arena size mmap = elim (allocation_size arena size) [
  | none ↦ (arena, none)
  | some allocated ↦
      if ltb (u64_max - arena.allocated_bytes) allocated
      then (arena, none)
      else elim (mmap allocated) [
        | none ↦ (arena, none)
        | some mapping ↦
            take_bytes (record arena { allocated_bytes = arena.allocated_bytes + allocated })
              (record { mapping = mapping; size = allocated; used = 0 }) arena.chunks 0 size
      ]
]

-- The last chunk is used if it has room behind what is used of it, at a multiple of 16.
unfoldable pub reserve_from :
    ExecutableArena → (chunks : List Chunk) → (size : ℕ) → (mmap : ℕ → Option ℕ) → Reserved
unfolding grow take_bytes round_up
reserve_from arena [] size mmap = grow arena size mmap
reserve_from arena (chunk ∷ older) size mmap = elim (round_up chunk.used 16) [
  | none ↦ (arena, none)
  | some offset ↦
      if ltb chunk.size offset || ltb (chunk.size - offset) size
      then grow arena size mmap
      else take_bytes arena chunk older offset size
]

unfoldable pub reserve : ExecutableArena → (size : ℕ) → (mmap : ℕ → Option ℕ) → Reserved
unfolding reserve_from
reserve arena size mmap =
    if size == 0 then (arena, none) else reserve_from arena arena.chunks size mmap
