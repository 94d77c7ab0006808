-- ===== src/Flags/Reports.antt =====
-- Reading the flags that a helper has set.
use rosa.Prelude.{
  ℕ, zero, suc, ◌+◌, ◌*◌, ◌%◌, ◌<◌, min, max, bit_and, bit_or, ◌≡◌, refl, ap, ◌∙◌, inl, inr, Bool,
  true, false, not, ◌&&◌, ◌||◌, List, [], ◌∷◌, arith, ◌==◌, Bool-cases, u64_max,
}
use rosa.Prelude.Bits.Laws.{bit, bit-bit_and, bit-bit_or, bit-bit_xor, bit-le-one}
use rosa.Flags.{clear, asserts, status, arithmetic_flag_mask, complement64, flag_reserved_one}

abbrev pub as_bit : Bool → ℕ
as_bit false = 0
as_bit true = 1

-- What a run of assertions adds at bit k.
abbrev pub asserted : ℕ → List (Bool × ℕ) → ℕ
asserted k [] = 0
asserted k (a ∷ rest) = max (as_bit a.0 * bit k a.1) (asserted k rest)

pub bit-asserts :
    (k : ℕ) (list : List (Bool × ℕ)) (flags : ℕ)
    → bit k (asserts list flags) ≡ max (bit k flags) (asserted k list)
unfolding asserts
bit-asserts k [] flags = omega arith
bit-asserts k ((c, f) ∷ rest) flags = elim (Bool-cases c) [
  | inl e ↦ rw e (omega (arith, bit-asserts k rest (bit_or flags f), bit-bit_or k flags f))
  | inr e ↦ rw e (omega (arith, bit-asserts k rest flags))
]

pub bit-clear :
    (k rflags replaced : ℕ)
    → bit k (clear rflags replaced)
      ≡ max (min (bit k rflags) ((bit k replaced + bit k u64_max) % 2)) (bit k flag_reserved_one)
unfolding clear
bit-clear k rflags replaced = omega (
  arith,
  bit-bit_or k (bit_and rflags (complement64 replaced)) flag_reserved_one,
  bit-bit_and k rflags (complement64 replaced),
  bit-bit_xor k replaced u64_max,
)

-- A bit of the flags that an addition or a subtraction does not set.
abbrev pub is_kept : ℕ → Bool
is_kept k = not (k == 0 || k == 1 || k == 2 || k == 4 || k == 6 || k == 7 || k == 11)

-- The flags are those of the operation, each bit of rflags that is not a status flag is as it was, and
-- the reserved bit is set.
pub record Reports (rflags : ℕ) (carry parity auxiliary is_zero sign overflow : Bool) (flags : ℕ)
    : Type 0 where
  pub carry_flag : bit 0 flags ≡ as_bit carry
  pub reserved_one : bit 1 flags ≡ 1
  pub parity_flag : bit 2 flags ≡ as_bit parity
  pub auxiliary_flag : bit 4 flags ≡ as_bit auxiliary
  pub zero_flag : bit 6 flags ≡ as_bit is_zero
  pub sign_flag : bit 7 flags ≡ as_bit sign
  pub overflow_flag : bit 11 flags ≡ as_bit overflow
  pub kept : (k : ℕ) → k < 64 → is_kept k ≡ true → bit k flags ≡ bit k rflags

unfoldable pub all_below : ℕ → (ℕ → Bool) → Bool
all_below zero p = true
all_below (suc n) p = p n && all_below n p

pub all_below_sound : (n : ℕ) (p : ℕ → Bool) (k : ℕ) → all_below n p ≡ true → k < n → p k ≡ true
unfolding all_below
all_below_sound zero p k h below = absurd (omega arith)
all_below_sound (suc n) p k h below = ground (arith, all_below_sound n p k)

-- None of the six flags, nor the reserved bit, reaches a kept bit.
abbrev untouched : ℕ → Bool
untouched k =
    not (is_kept k)
    || (bit k arithmetic_flag_mask == 0
        && bit k u64_max == 1
        && bit k flag_reserved_one == 0
        && bit k 1 == 0
        && bit k 4 == 0
        && bit k 0x10 == 0
        && bit k 0x40 == 0
        && bit k 0x80 == 0
        && bit k 0x800 == 0)

untouched_table : all_below 64 untouched ≡ true
unfolding all_below
untouched_table = refl

pub spread :
    (keep : Bool) (m u r a b c d e f : ℕ)
    → (not keep
        || (m == 0 && u == 1 && r == 0 && a == 0 && b == 0 && c == 0 && d == 0 && e == 0 && f == 0))
      ≡ true
    → keep ≡ true
    → (m ≡ 0) × (u ≡ 1) × (r ≡ 0) × (a ≡ 0) × (b ≡ 0) × (c ≡ 0) × (d ≡ 0) × (e ≡ 0) × (f ≡ 0)
spread keep m u r a b c d e f h k = ground arith

module _ (rflags : ℕ) (carry parity auxiliary is_zero sign overflow : Bool) where
  flags : ℕ
  flags =
      asserts (status carry parity auxiliary is_zero sign overflow)
        (clear rflags arithmetic_flag_mask)

  flag_at :
      (k : ℕ)
      → bit k flags
        ≡ max
            (max
              (min (bit k rflags) ((bit k arithmetic_flag_mask + bit k u64_max) % 2))
              (bit k flag_reserved_one))
            (asserted k (status carry parity auxiliary is_zero sign overflow))
  unfolding flags
  flag_at k =
      bit-asserts k (status carry parity auxiliary is_zero sign overflow)
        (clear rflags arithmetic_flag_mask)
      ∙ ap (λ (t : ℕ). max t (asserted k (status carry parity auxiliary is_zero sign overflow)))
          (bit-clear k rflags arithmetic_flag_mask)

  kept_bits : (k : ℕ) → k < 64 → is_kept k ≡ true → bit k flags ≡ bit k rflags
  kept_bits k below keep =
      let (m, u, r, a, b, c, d, e, f) =
        spread (is_kept k) (bit k arithmetic_flag_mask) (bit k u64_max) (bit k flag_reserved_one)
          (bit k 1) (bit k 4) (bit k 0x10) (bit k 0x40) (bit k 0x80) (bit k 0x800)
          (all_below_sound 64 untouched k untouched_table below) keep in
      flag_at k ∙ rw (m, u, r, a, b, c, d, e, f) (omega (arith, bit-le-one k rflags))

  pub status-Reports : Reports rflags carry parity auxiliary is_zero sign overflow (
      asserts
        (status carry parity auxiliary is_zero sign overflow)
        (clear rflags arithmetic_flag_mask))
  unfolding flags
  status-Reports = record {
    carry_flag = omega (arith, flag_at 0, bit-le-one 0 rflags);
    reserved_one = omega (arith, flag_at 1);
    parity_flag = omega (arith, flag_at 2);
    auxiliary_flag = omega (arith, flag_at 4);
    zero_flag = omega (arith, flag_at 6);
    sign_flag = omega (arith, flag_at 7);
    overflow_flag = omega (arith, flag_at 11);
    kept = kept_bits;
  }
