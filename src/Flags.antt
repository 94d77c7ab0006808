-- ===== src/Flags.antt =====
-- The x86 status flags (src/x86/Flags.h) and what the helpers of src/dbt/FlagHelpers.cpp share. Of the
-- guest's state these helpers use rflags alone: a helper is a function from rflags to rflags.
pub mod Add
pub mod Subtract
pub mod Shift
pub mod Result
pub mod Reports
pub mod Signs
pub mod Meaning
pub mod Select
pub mod Sums
pub mod Counts
pub mod Logic
pub mod BitTests
pub mod Carries
mod Examples
use rosa.Prelude.{
  ℕ, zero, suc, ◌+◌, ◌-◌, ◌*◌, ◌/◌, ◌%◌, ◌^◌, ◌≤◌, ◌<◌, min, max, bit_and, bit_or, bit_xor, ◌≡◌,
  refl, sym, ap, ◌∙◌, subst, ◌≢◌, ◌↔◌, ◌⊎◌, inl, inr, Bool, true, false, not, ◌&&◌, ◌||◌, Option,
  none, some, List, [], ◌∷◌, ◌++◌, arith, ltb, leb, ◌==◌, if◌then◌else◌, Bool-cases, Option-cases,
  length, get_elem?, set, take, drop, replicate, All, u32, u64, u32_max, u64_max,
}

abbrev pub flag_carry : ℕ
flag_carry = 0x1

abbrev pub flag_reserved_one : ℕ
flag_reserved_one = 0x2

abbrev pub flag_parity : ℕ
flag_parity = 0x4

abbrev pub flag_auxiliary_carry : ℕ
flag_auxiliary_carry = 0x10

abbrev pub flag_zero : ℕ
flag_zero = 0x40

abbrev pub flag_sign : ℕ
flag_sign = 0x80

abbrev pub flag_overflow : ℕ
flag_overflow = 0x800

-- flagCarry | flagParity | flagAuxiliaryCarry | flagZero | flagSign | flagOverflow
abbrev pub arithmetic_flag_mask : ℕ
arithmetic_flag_mask = 0x8d5

-- static_cast to std::uint8_t and std::uint16_t.
abbrev pub u8 : ℕ → ℕ
u8 x = x % 0x100

abbrev pub u16 : ℕ → ℕ
u16 x = x % 0x1_0000

-- ~x on std::uint64_t; on unsigned and int, bit patterns of 32 bits.
abbrev pub complement64 : ℕ → ℕ
complement64 x = bit_xor x 0xffff_ffff_ffff_ffff

abbrev pub complement32 : ℕ → ℕ
complement32 x = bit_xor x 0xffff_ffff

-- x != 0
abbrev pub nonzero : ℕ → Bool
nonzero x = not (x == 0)

unfoldable pub popcount : (bits x : ℕ) → ℕ
popcount zero x = 0
popcount (suc bits) x = x % 2 + popcount bits (x / 2)

-- (std::popcount(static_cast<unsigned>(result & 0xFFU)) % 2) == 0
unfoldable pub even_parity : ℕ → Bool
unfolding popcount
even_parity result = popcount 32 (bit_and result 0xff) % 2 == 0

-- (rflags & ~replaced) | flagReservedOne
unfoldable pub clear : ℕ → ℕ → ℕ
clear rflags replaced = bit_or (bit_and rflags (complement64 replaced)) flag_reserved_one

-- A run of statements if (condition) { flags |= flag; }
unfoldable pub asserts : List (Bool × ℕ) → ℕ → ℕ
asserts [] flags = flags
asserts (assertion ∷ rest) flags =
    asserts rest (if assertion.0 then bit_or flags assertion.1 else flags)

-- The six conditions of an addition or a subtraction, in the order of their statements.
abbrev pub status : (carry parity auxiliary is_zero sign overflow : Bool) → List (Bool × ℕ)
status carry parity auxiliary is_zero sign overflow =
    (carry, flag_carry)
    ∷ (parity, flag_parity)
    ∷ (auxiliary, flag_auxiliary_carry)
    ∷ (is_zero, flag_zero)
    ∷ (sign, flag_sign)
    ∷ (overflow, flag_overflow)
    ∷ []

-- ((lhs ^ rhs ^ result) & 0x10U) != 0
abbrev pub adjusts : ℕ → ℕ → ℕ → Bool
adjusts lhs rhs result = nonzero (bit_and (bit_xor (bit_xor lhs rhs) result) 0x10)
