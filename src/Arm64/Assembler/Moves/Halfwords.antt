-- ===== src/Arm64/Assembler/Moves/Halfwords.antt =====
-- The arithmetic of the halfwords of a value (src/arm64/Assembler.cpp, movImmediate).
use rosa.Prelude.{
  ℕ, zero, suc, ◌+◌, ◌-◌, ◌*◌, ◌/◌, ◌%◌, ◌^◌, ◌<◌, ◌≡◌, Bool, true, false, arith, if◌then◌else◌,
}
use rosa.Prelude.Bits.Laws.{bit_and_low}
use rosa.Arm64.Assembler.Moves.{halfword_of}

-- The weight of a halfword.
abbrev pub place : ℕ → ℕ
place index = 2 ^ (16 * index)

by_place : (P : ℕ → Type 0) → P 0 → P 1 → P 2 → P 3 → (index : ℕ) → index < 4 → P index
by_place P a b c d zero h = a
by_place P a b c d (suc zero) h = b
by_place P a b c d (suc (suc zero)) h = c
by_place P a b c d (suc (suc (suc zero))) h = d
by_place P a b c d (suc (suc (suc (suc index)))) h = absurd (omega arith)

-- The bits above the halfwords done, and the halfwords done if they were all filled in.
abbrev pub above : (use_movn : Bool) → (index : ℕ) → ℕ
above use_movn index = if use_movn then 2 ^ 64 - place index else 0

abbrev pub blank : (use_movn : Bool) → (index : ℕ) → ℕ
blank use_movn index = if use_movn then place index - 1 else 0

pub halfword :
    (value index : ℕ) → index < 4 → halfword_of value index ≡ value / place index % 2 ^ 16
halfword value =
    by_place (λ i. halfword_of value i ≡ value / place i % 2 ^ 16) (bit_and_low 16 (value / 2 ^ 0))
      (bit_and_low 16 (value / 2 ^ 16)) (bit_and_low 16 (value / 2 ^ 32))
      (bit_and_low 16 (value / 2 ^ 48))

pub kept :
    (m : Bool) (value index : ℕ)
    → index < 4
    → value / place index % 2 ^ 16 ≡ (if m then 0xffff else 0)
    → (value % place index + above m index ≡ value % place (suc index) + above m (suc index))
kept true value =
    by_place
      (λ i.
        value / place i % 2 ^ 16 ≡ 0xffff
        → value % place i + (2 ^ 64 - place i) ≡ value % place (suc i) + (2 ^ 64 - place (suc i)))
      (λ h. omega (arith, h)) (λ h. omega (arith, h)) (λ h. omega (arith, h))
      (λ h. omega (arith, h))
kept false value =
    by_place (λ i. value / place i % 2 ^ 16 ≡ 0 → value % place i + 0 ≡ value % place (suc i) + 0)
      (λ h. omega (arith, h)) (λ h. omega (arith, h)) (λ h. omega (arith, h))
      (λ h. omega (arith, h))

pub replaced :
    (m : Bool) (value index : ℕ)
    → index < 4
    → let before : ℕ = value % place index + above m index in
      before
        - before / place index % 2 ^ 16 * place index
        + value / place index % 2 ^ 16 * place index
      ≡ value % place (suc index) + above m (suc index)
replaced true value =
    by_place
      (λ i.
        let before : ℕ = value % place i + above true i in
        before - before / place i % 2 ^ 16 * place i + value / place i % 2 ^ 16 * place i
        ≡ value % place (suc i) + above true (suc i))
      (omega arith) (omega arith) (omega arith) (omega arith)
replaced false value =
    by_place
      (λ i.
        let before : ℕ = value % place i + above false i in
        before - before / place i % 2 ^ 16 * place i + value / place i % 2 ^ 16 * place i
        ≡ value % place (suc i) + above false (suc i))
      (omega arith) (omega arith) (omega arith) (omega arith)

pub still_blank :
    (m : Bool) (value index : ℕ)
    → index < 4
    → value % place index ≡ blank m index
    → value / place index % 2 ^ 16 ≡ (if m then 0xffff else 0)
    → value % place (suc index) ≡ blank m (suc index)
still_blank true value =
    by_place
      (λ i.
        value % place i ≡ place i - 1
        → value / place i % 2 ^ 16 ≡ 0xffff
        → value % place (suc i) ≡ place (suc i) - 1)
      (λ b h. omega (arith, b, h)) (λ b h. omega (arith, b, h)) (λ b h. omega (arith, b, h))
      (λ b h. omega (arith, b, h))
still_blank false value =
    by_place (λ i. value % place i ≡ 0 → value / place i % 2 ^ 16 ≡ 0 → value % place (suc i) ≡ 0)
      (λ b h. omega (arith, b, h)) (λ b h. omega (arith, b, h)) (λ b h. omega (arith, b, h))
      (λ b h. omega (arith, b, h))

pub first_ones :
    (value index : ℕ)
    → index < 4
    → value % place index ≡ blank true index
    → 0xffff_ffff_ffff_ffff - (0xffff - value / place index % 2 ^ 16) * place index
      ≡ value % place (suc index) + above true (suc index)
first_ones value =
    by_place
      (λ i.
        value % place i ≡ blank true i
        → 0xffff_ffff_ffff_ffff - (0xffff - value / place i % 2 ^ 16) * place i
          ≡ value % place (suc i) + above true (suc i))
      (λ b. omega (arith, b)) (λ b. omega (arith, b)) (λ b. omega (arith, b))
      (λ b. omega (arith, b))

pub first_zeros :
    (value index : ℕ)
    → index < 4
    → value % place index ≡ 0
    → value / place index % 2 ^ 16 * place index ≡ value % place (suc index) + 0
first_zeros value =
    by_place
      (λ i. value % place i ≡ 0 → value / place i % 2 ^ 16 * place i ≡ value % place (suc i) + 0)
      (λ b. omega (arith, b)) (λ b. omega (arith, b)) (λ b. omega (arith, b))
      (λ b. omega (arith, b))
