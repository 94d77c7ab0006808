-- ===== src/Flags/Sums.antt =====
-- The helpers of additions and subtractions report the flags of the numbers.
use rosa.Prelude.{
  ℕ, suc, ◌+◌, ◌*◌, ◌/◌, ◌^◌, ◌≤◌, ◌<◌, bit_and, bit_xor, ◌≡◌, refl, ◌∙◌, Bool, not, arith, ltb,
  leb, ◌==◌, set, u32, u32_max, u64_max,
}
use rosa.Prelude.Bits.Laws.{bit}
use rosa.Flags.{
  adjusts, nonzero, complement32, even_parity, clear, asserts, status, arithmetic_flag_mask, u8,
  u16,
}
use rosa.Flags.Reports.{Reports, status-Reports}
use rosa.Flags.Signs.{
  sign, nonzero-shift, nonzero-mask, overflow-shift, overflow_sum-mask, overflow_sum-shift,
}
use rosa.Flags.Meaning.{
  SumFlags, DifferenceFlags, sum_of, difference_of, sum_of-lt, difference_of-lt, sum-overflows,
  sum-adjusts, difference-overflows, difference-adjusts,
}
use rosa.Flags.Select.{Width, i8, i16, i32, i64, top_of, low, update_add_flags, update_sub_flags}
use rosa.Flags.Add.{update_add_flags64}

-- Conditions that are equal set equal flags.
pub conditions-Reports :
    (rflags : ℕ)
    {carry carry' parity auxiliary auxiliary' is_zero sign sign' overflow overflow' : Bool}
    → carry ≡ carry'
    → auxiliary ≡ auxiliary'
    → sign ≡ sign'
    → overflow ≡ overflow'
    → Reports rflags carry' parity auxiliary' is_zero sign' overflow' (
        asserts
          (status carry parity auxiliary is_zero sign overflow)
          (clear rflags arithmetic_flag_mask))
conditions-Reports rflags {carry} {carry'} {parity} {auxiliary} {auxiliary'} {is_zero} {sign}
      {sign'} {overflow} {overflow'} c a s o =
    rw (c, a, s, o) (status-Reports rflags carry' parity auxiliary' is_zero sign' overflow')

pub sign-shift : (top x : ℕ) → x < 2 * 2 ^ top → not (x / 2 ^ top == 0) ≡ leb (2 ^ top) x
sign-shift top x h = nonzero-shift top x h ∙ rw (sign top x h) (ground arith)

pub sign-mask : (top x : ℕ) → x < 2 * 2 ^ top → not (bit_and x (2 ^ top) == 0) ≡ leb (2 ^ top) x
sign-mask top x h = nonzero-mask top x ∙ rw (sign top x h) (ground arith)

-- The conditions of the helpers for fewer than 64 bits, on the low bits of their arguments.
module _ (rflags top k lhs rhs result max : ℕ) (wide : 2 ^ top ≡ 16 * k)
    (last : suc max ≡ 2 * 2 ^ top) (l : lhs < 2 * 2 ^ top) (r : rhs < 2 * 2 ^ top) where
  narrow_sum :
      bit top u32_max ≡ 1
      → result ≡ sum_of top lhs rhs 0
      → SumFlags top rflags lhs rhs 0 (
          asserts
            (status
              (ltb max (lhs + rhs))
              (even_parity result)
              (adjusts lhs rhs result)
              (result == 0)
              (nonzero (bit_and result (2 ^ top)))
              (nonzero (
                bit_and (bit_and (complement32 (bit_xor lhs rhs)) (bit_xor lhs result)) (2 ^ top))))
            (clear rflags arithmetic_flag_mask))
  narrow_sum set is = rw is (
      conditions-Reports rflags (ground arith) (sum-adjusts top lhs rhs 0 l r (omega arith) k wide)
        (sign-mask top (sum_of top lhs rhs 0) (sum_of-lt top lhs rhs 0))
        (overflow_sum-mask top lhs rhs (sum_of top lhs rhs 0) l r (sum_of-lt top lhs rhs 0) u32_max
            set
          ∙ sum-overflows top lhs rhs 0 l r (omega arith)))

  shifted_difference :
      result ≡ difference_of top lhs rhs 0
      → DifferenceFlags top rflags lhs rhs 0 (
          asserts
            (status
              (ltb lhs rhs)
              (even_parity result)
              (adjusts lhs rhs result)
              (result == 0)
              (nonzero (result / 2 ^ top))
              (nonzero (bit_and (bit_xor lhs rhs) (bit_xor lhs result) / 2 ^ top)))
            (clear rflags arithmetic_flag_mask))
  shifted_difference is = rw is (
      conditions-Reports rflags (ground arith)
        (difference-adjusts top lhs rhs 0 l r (omega arith) k wide)
        (sign-shift top (difference_of top lhs rhs 0) (difference_of-lt top lhs rhs 0))
        (overflow-shift top lhs rhs (difference_of top lhs rhs 0) l r
            (difference_of-lt top lhs rhs 0)
          ∙ difference-overflows top lhs rhs 0 l r (omega arith)))

add64 :
    (rflags lhs rhs result : ℕ)
    → lhs ≤ u64_max
    → rhs ≤ u64_max
    → result ≡ sum_of 63 lhs rhs 0
    → SumFlags 63 rflags lhs rhs 0 (update_add_flags64 rflags lhs rhs result)
unfolding update_add_flags64
add64 rflags lhs rhs result l r is = rw is (
    conditions-Reports rflags (ground arith)
      (sum-adjusts 63 lhs rhs 0 (omega arith) (omega arith) (omega arith) (2 ^ 59) refl)
      (sign-shift 63 (sum_of 63 lhs rhs 0) (omega arith))
      (overflow_sum-shift 63 lhs rhs (sum_of 63 lhs rhs 0) (omega arith) (omega arith) (omega arith)
          u64_max refl (omega arith)
        ∙ sum-overflows 63 lhs rhs 0 (omega arith) (omega arith) (omega arith)))

-- A number of 64 bits is all of its low 64 bits.
pub low-all : (x : ℕ) → x ≤ u64_max → low i64 x ≡ x
low-all x h = omega arith

-- The helper that the backend calls after an addition, given the operands and a result whose low bits
-- are those of the sum, reports the sum's flags: carry exactly when the unsigned sum of the operands' low
-- bits does not fit the width, overflow exactly when the signed sum does not, auxiliary carry when the
-- sum of the low four bits does not fit four bits, zero, sign and the parity of the low byte those of the
-- result, all other bits of rflags as before and the reserved bit set; for operands of 64 bits.
pub update_add_flags_lem :
    (w : Width) (rflags lhs rhs result : ℕ)
    → lhs ≤ u64_max
    → rhs ≤ u64_max
    → result ≤ u64_max
    → low w result ≡ sum_of (top_of w) (low w lhs) (low w rhs) 0
    → SumFlags
        (top_of w)
        rflags
        (low w lhs)
        (low w rhs)
        0
        (update_add_flags w rflags lhs rhs result)
unfolding update_add_flags
update_add_flags_lem i8 rflags lhs rhs result l r s is =
    narrow_sum rflags 7 8 (u8 lhs) (u8 rhs) (u8 result) 0xff refl refl (omega arith) (omega arith)
      refl is
update_add_flags_lem i16 rflags lhs rhs result l r s is =
    narrow_sum rflags 15 2048 (u16 lhs) (u16 rhs) (u16 result) 0xffff refl refl (omega arith)
      (omega arith) refl is
update_add_flags_lem i32 rflags lhs rhs result l r s is =
    narrow_sum rflags 31 0x800_0000 (u32 lhs) (u32 rhs) (u32 result) u32_max refl refl (omega arith)
      (omega arith) refl is
update_add_flags_lem i64 rflags lhs rhs result l r s is =
    rw (low-all lhs l, low-all rhs r)
      (add64 rflags lhs rhs result l r (rw (low-all lhs l, low-all rhs r, low-all result s) at is))

-- The helper that the backend calls after a subtraction, given operands of 64 bits and a result whose
-- low bits are those of the difference, reports the flags of the difference at the width: carry exactly
-- when the unsigned difference is negative, overflow exactly when the signed difference does not fit,
-- auxiliary carry, zero, sign and parity; all other bits of rflags stay and the reserved bit is set.
pub update_sub_flags_lem :
    (w : Width) (rflags lhs rhs result : ℕ)
    → lhs ≤ u64_max
    → rhs ≤ u64_max
    → result ≤ u64_max
    → low w result ≡ difference_of (top_of w) (low w lhs) (low w rhs) 0
    → DifferenceFlags
        (top_of w)
        rflags
        (low w lhs)
        (low w rhs)
        0
        (update_sub_flags w rflags lhs rhs result)
unfolding update_sub_flags
update_sub_flags_lem i8 rflags lhs rhs result l r s is =
    shifted_difference rflags 7 8 (u8 lhs) (u8 rhs) (u8 result) 0xff refl refl (omega arith)
      (omega arith) is
update_sub_flags_lem i16 rflags lhs rhs result l r s is =
    shifted_difference rflags 15 2048 (u16 lhs) (u16 rhs) (u16 result) 0xffff refl refl
      (omega arith) (omega arith) is
update_sub_flags_lem i32 rflags lhs rhs result l r s is =
    shifted_difference rflags 31 0x800_0000 (u32 lhs) (u32 rhs) (u32 result) u32_max refl refl
      (omega arith) (omega arith) is
update_sub_flags_lem i64 rflags lhs rhs result l r s is =
    rw (low-all lhs l, low-all rhs r)
      (shifted_difference rflags 63 (2 ^ 59) lhs rhs result u64_max refl refl (omega arith)
        (omega arith) (rw (low-all lhs l, low-all rhs r, low-all result s) at is))
