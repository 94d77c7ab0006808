-- ===== src/Arm64/CodeBuffer/Flush.antt =====
-- The ranges whose instruction cache publishBatch flushes (src/arm64/CodeBuffer.cpp), neighbours joined.
use rosa.Prelude.{
  All-map, ℕ, suc, ◌+◌, ◌-◌, ◌≤◌, ◌≡◌, refl, subst, inl, inr, ◌&&◌, some, List, [], ◌∷◌, arith, ltb,
  leb, if◌then◌else◌, Bool-cases, get_elem?, All,
}
use rosa.Arm64.CodeBuffer.{Allocation}

-- A call of sys_icache_invalidate.
pub record Range : Type 0 where
  pub start : ℕ
  pub size : ℕ

-- The loop over the further allocations, from rangeStart and rangeEnd.
unfoldable pub flush_from : (range_start range_end : ℕ) → List Allocation → List Range
flush_from range_start range_end [] =
    record { start = range_start; size = range_end - range_start } ∷ []
flush_from range_start range_end (a ∷ rest) =
    let joined = flush_from range_start (a.address + a.size) rest in
    let apart = flush_from a.address (a.address + a.size) rest in
    if leb range_end a.address && ltb (a.address - range_end) 16
    then joined
    else record { start = range_start; size = range_end - range_start } ∷ apart

unfoldable pub flush_ranges : List Allocation → List Range
unfolding flush_from
flush_ranges [] = []
flush_ranges (a ∷ rest) = flush_from a.address (a.address + a.size) rest

-- One of the ranges holds all bytes from `low` to before `high`.
pub record Covered (ranges : List Range) (low high : ℕ) : Type 0 where
  pub index : ℕ
  pub range : Range
  pub there : get_elem? ranges index ≡ some range
  pub starts : range.start ≤ low
  pub ends : high ≤ range.start + range.size

abbrev pub IsCovered : List Range → Allocation → Type 0
IsCovered ranges a = Covered ranges a.address (a.address + a.size)

Covered-later :
    (ranges : List Range) (first : Range) (low high : ℕ)
    → Covered ranges low high
    → Covered (first ∷ ranges) low high
Covered-later ranges first low high c = record {
  index = suc c.index;
  range = c.range;
  there = c.there;
  starts = c.starts;
  ends = c.ends;
}

-- What the ranges of a run of allocations are to hold.
abbrev HoldsRun : (range_start range_end : ℕ) → List Allocation → List Range → Type 0
HoldsRun range_start range_end rest ranges =
    Covered ranges range_start range_end × All (IsCovered ranges) rest

Covered-within :
    (ranges : List Range) (low high low' high' : ℕ)
    → Covered ranges low high
    → low ≤ low'
    → high' ≤ high
    → Covered ranges low' high'
Covered-within ranges low high low' high' c from to = record {
  index = c.index;
  range = c.range;
  there = c.there;
  starts = omega (arith, c.starts, from);
  ends = omega (arith, c.ends, to);
}

flush_from-Covered :
    (range_start range_end : ℕ) (rest : List Allocation)
    → range_start ≤ range_end
    → HoldsRun range_start range_end rest (flush_from range_start range_end rest)
unfolding flush_from
flush_from-Covered range_start range_end [] h =
    (record { index = 0; range = _; there = refl; starts = omega arith; ends = omega arith }, tt)
flush_from-Covered range_start range_end (a ∷ rest) h =
    elim (Bool-cases (leb range_end a.address && ltb (a.address - range_end) 16)) [
      | inl near ↦
          let next : range_start ≤ a.address + a.size = ground arith in
          let (all, others) = flush_from-Covered range_start (a.address + a.size) rest next in
          let is : flush_from range_start (a.address + a.size) rest
              ≡ flush_from range_start range_end (a ∷ rest) =
            rw (near, flush_from) refl in
          subst (HoldsRun range_start range_end (a ∷ rest)) is (
            Covered-within _ _ _ _ _ all (omega arith) (ground arith),
            (Covered-within _ _ _ _ _ all (ground arith) (omega arith), others),
          )
      | inr far ↦
          let (all, others) =
            flush_from-Covered a.address (a.address + a.size) rest (omega arith) in
          let first : Range = record { start = range_start; size = range_end - range_start } in
          let is : first ∷ flush_from a.address (a.address + a.size) rest
              ≡ flush_from range_start range_end (a ∷ rest) =
            rw (far, flush_from) refl in
          subst (HoldsRun range_start range_end (a ∷ rest)) is (
            record {
              index = 0;
              range = first;
              there = refl;
              starts = omega arith;
              ends = omega arith;
            },
            (
              Covered-later _ first _ _ all,
              All-map _ _ rest (λ b. Covered-later _ first b.address (b.address + b.size)) others,
            ),
          )
    ]

-- Each allocation of a batch lies in one of the ranges whose instruction cache is flushed.
pub flush_ranges-IsCovered :
    (allocations : List Allocation) → All (IsCovered (flush_ranges allocations)) allocations
unfolding flush_ranges
flush_ranges-IsCovered [] = tt
flush_ranges-IsCovered (a ∷ rest) =
    flush_from-Covered a.address (a.address + a.size) rest (omega arith)
