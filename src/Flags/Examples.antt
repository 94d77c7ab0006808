-- ===== src/Flags/Examples.antt =====
-- Runs of the flag helpers (src/dbt/FlagHelpers.cpp), and the theorems at concrete operands.
use rosa.Prelude.{refl, ◌≢◌, arith, u64_max}
use rosa.Flags.Meaning.{SumFlags, DifferenceFlags}
use rosa.Flags.Select.{
  i8, i16, i32, i64, update_add_flags, update_sub_flags, update_adc_flags, update_sbb_flags,
}
use rosa.Flags.Sums.{update_add_flags_lem, update_sub_flags_lem}
use rosa.Flags.Counts.{IncrementFlags, DecrementFlags, update_inc_flags_lem, update_dec_flags_lem}
use rosa.Flags.BitTests.{Tested, update_bit_test_flags_lem}
use rosa.Flags.Result.{update_bit_test_flags32, update_bit_test_flags64}
use rosa.Prelude.Bits.Laws.{bit}
use rosa.Flags.Logic.{LogicFlags, update_logic_flags_lem}
use rosa.Flags.Result.{
  update_inc_flags, update_dec_flags, update_logic_flags8, update_logic_flags16,
  update_logic_flags32, update_logic_flags64,
}
use rosa.Flags.Carries.{update_adc_flags_lem, update_sbb_flags_lem}

update_add_flags_lem_example : SumFlags 7 0x8d5 200 100 0 (update_add_flags i8 0x8d5 200 100 44)
update_add_flags_lem_example =
    update_add_flags_lem i8 0x8d5 200 100 44 (omega arith) (omega arith) (omega arith) refl

update_sub_flags_lem_example :
    DifferenceFlags 31 0x202 5 0x8000_0000 0 (update_sub_flags i32 0x202 5 0x8000_0000 0x8000_0005)
update_sub_flags_lem_example =
    update_sub_flags_lem i32 0x202 5 0x8000_0000 0x8000_0005 (omega arith) (omega arith)
      (omega arith) refl

update_adc_flags_lem_example : SumFlags 63 7 u64_max 0 1 (update_adc_flags i64 7 u64_max 0 1)
update_adc_flags_lem_example =
    update_adc_flags_lem i64 7 u64_max 0 1 (λ e. i64≢i16 e) (omega arith) (omega arith)
  where
    i64≢i16 : i64 ≢ i16
    i64≢i16 = cc

update_sbb_flags_lem_example :
    DifferenceFlags 15 0 0 0xffff 1 (update_sbb_flags i16 0 0x3_0000 0xffff 1)
update_sbb_flags_lem_example =
    update_sbb_flags_lem i16 0 0x3_0000 0xffff 1 (omega arith) (omega arith)

update_inc_flags_lem_example :
    IncrementFlags 31 0x203 0x7fff_ffff (update_inc_flags 32 0x203 0x7fff_ffff 0x8000_0000)
update_inc_flags_lem_example = update_inc_flags_lem i32 0x203 0x7fff_ffff 0x8000_0000 refl

update_dec_flags_lem_example : DecrementFlags 7 0x202 0 (update_dec_flags 8 0x202 0x300 0x2ff)
update_dec_flags_lem_example = update_dec_flags_lem i8 0x202 0x300 0x2ff refl

update_logic_flags_lem_example :
    LogicFlags 7 0x8d5 0x80 (update_logic_flags8 0x8d5 0xff80)
    × LogicFlags 15 0x8d5 0xff80 (update_logic_flags16 0x8d5 0xff80)
    × LogicFlags 31 0x8d5 0xff80 (update_logic_flags32 0x8d5 0xff80)
    × LogicFlags 63 0x8d5 0xff80 (update_logic_flags64 0x8d5 0xff80)
update_logic_flags_lem_example = update_logic_flags_lem 0x8d5 0xff80 (omega arith)

update_bit_test_flags_lem_example :
    Tested 0x8d4 (bit 3 0x100_0000_0008) (update_bit_test_flags32 0x8d4 0x100_0000_0008 35)
    × Tested 0x8d4 (bit 35 0x100_0000_0008) (update_bit_test_flags64 0x8d4 0x100_0000_0008 35)
update_bit_test_flags_lem_example = update_bit_test_flags_lem 0x8d4 0x100_0000_0008 35
