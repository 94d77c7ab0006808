-- ===== src/Guest/Pages.antt =====
-- The page range of `protect` and `deallocate` (src/guest/AddressSpace.cpp): both round an address
-- and a size outwards to 4 KiB pages and refuse a range that overflows 64 bits. Masking with
-- ~(guestPageSize - 1) is written as the removal of the remainder.
use rosa.Prelude.{
  ℕ, ◌+◌, ◌-◌, ◌%◌, ◌≤◌, ◌<◌, ◌≡◌, Option, none, some, arith, ltb, if◌then◌else◌, u64_max,
}

pub record PageRange : Type 0 where
  pub start : ℕ
  pub end : ℕ

unfoldable pub page_range : ℕ → ℕ → Option PageRange
page_range address size =
    if ltb (u64_max - size) address
    then none
    else (let unrounded_end = address + size in
        if ltb (u64_max - 4095) unrounded_end
        then none
        else some (record {
          start = address - address % 4096;
          end = (unrounded_end + 4095) - (unrounded_end + 4095) % 4096;
        }))

-- The range of a request of at least one byte, if it does not overflow, is the smallest run of
-- whole pages that holds every address of the request, and it ends within 64 bits.
pub page_range_bounds :
    (address size : ℕ) {r : PageRange}
    → 0 < size
    → page_range address size ≡ some r
    → (r.start ≤ address)
      × (address < r.start + 4096)
      × (address + size ≤ r.end)
      × (r.end < address + size + 4096)
      × (r.start < r.end)
      × (r.start % 4096 ≡ 0)
      × (r.end % 4096 ≡ 0)
      × (r.end < 0x1_0000_0000_0000_0000)
unfolding page_range
page_range_bounds address size {r} pos h = ground arith
