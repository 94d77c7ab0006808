-- ===== src/Prelude/Words.antt =====
-- Machine words: a value is a plain number, and an operation that may wrap says so.
use Prim.Native.Nat.{ℕ, ◌%◌}

-- std::numeric_limits<std::uint32_t>::max() and that of std::uint64_t and std::size_t.
abbrev pub u32_max : ℕ
u32_max = 0xffff_ffff

abbrev pub u64_max : ℕ
u64_max = 0xffff_ffff_ffff_ffff

abbrev pub u32 : ℕ → ℕ
u32 x = x % 0x1_0000_0000

abbrev pub u64 : ℕ → ℕ
u64 x = x % 0x1_0000_0000_0000_0000
