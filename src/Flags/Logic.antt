-- ===== src/Flags/Logic.antt =====
-- The helpers of logical operations (src/dbt/FlagHelpers.cpp).
use rosa.Prelude.{ℕ, ◌*◌, ◌/◌, ◌^◌, ◌≤◌, ◌<◌, false, arith, leb, ◌==◌, u32, u64_max}
use rosa.Flags.{nonzero, even_parity, clear, asserts, status, arithmetic_flag_mask, u8, u16}
use rosa.Flags.Reports.{Reports, status-Reports}
use rosa.Flags.Sums.{sign-shift}
use rosa.Flags.Result.{
  update_logic_flags8, update_logic_flags16, update_logic_flags32, update_logic_flags64,
}

-- The flags of a result of top + 1 bits: no carry, auxiliary carry or overflow, and its parity, zero and sign.
abbrev pub LogicFlags : (top rflags result flags : ℕ) → Type 0
LogicFlags top rflags result =
    Reports rflags false (even_parity result) false (result == 0) (leb (2 ^ top) result) false

reported :
    (top rflags result : ℕ)
    → result < 2 * 2 ^ top
    → LogicFlags top rflags result (
        asserts
          (status false (even_parity result) false (result == 0) (nonzero (result / 2 ^ top)) false)
          (clear rflags arithmetic_flag_mask))
reported top rflags result h = rw (sign-shift top result h) (
    status-Reports rflags false (even_parity result) false (result == 0) (leb (2 ^ top) result)
      false)

-- The four helpers of logical operations, given a result of 64 bits, report the flags of its low bits at
-- their widths: carry, auxiliary carry and overflow are cleared, zero, sign and the parity of the low byte
-- are those of the result, all other bits of rflags stay, and the reserved bit is set.
pub update_logic_flags_lem :
    (rflags result : ℕ)
    → result ≤ u64_max
    → LogicFlags 7 rflags (u8 result) (update_logic_flags8 rflags result)
      × LogicFlags 15 rflags (u16 result) (update_logic_flags16 rflags result)
      × LogicFlags 31 rflags (u32 result) (update_logic_flags32 rflags result)
      × LogicFlags 63 rflags result (update_logic_flags64 rflags result)
unfolding update_logic_flags8 update_logic_flags16 update_logic_flags32 update_logic_flags64 asserts
update_logic_flags_lem rflags result h = (
  reported 7 rflags (u8 result) (omega arith),
  reported 15 rflags (u16 result) (omega arith),
  reported 31 rflags (u32 result) (omega arith),
  reported 63 rflags result (omega arith),
)
