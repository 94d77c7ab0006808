-- ===== src/Arm64/Assembler/Frames.antt =====
-- Saving and restoring registers around calls, and instructions without operands
-- (src/arm64/Assembler.cpp).
use rosa.Arm64.Assembler.{Assembler, emit}

unfoldable pub push_frame_record : Assembler → Assembler
push_frame_record a = emit a 0xa9bf7bfd

unfoldable pub pop_frame_record : Assembler → Assembler
pop_frame_record a = emit a 0xa8c17bfd

unfoldable pub push_callee_saved19_and20 : Assembler → Assembler
push_callee_saved19_and20 a = emit a 0xa9bf53f3

unfoldable pub pop_callee_saved19_and20 : Assembler → Assembler
pop_callee_saved19_and20 a = emit a 0xa8c153f3

unfoldable pub push_callee_saved19_through22 : Assembler → Assembler
unfolding push_callee_saved19_and20
push_callee_saved19_through22 a = emit (push_callee_saved19_and20 a) 0xa9bf5bf5

unfoldable pub pop_callee_saved19_through22 : Assembler → Assembler
unfolding pop_callee_saved19_and20
pop_callee_saved19_through22 a = pop_callee_saved19_and20 (emit a 0xa8c15bf5)

unfoldable pub push_callee_saved19_through24 : Assembler → Assembler
unfolding push_callee_saved19_through22
push_callee_saved19_through24 a = emit (push_callee_saved19_through22 a) 0xa9bf63f7

unfoldable pub pop_callee_saved19_through24 : Assembler → Assembler
unfolding pop_callee_saved19_through22
pop_callee_saved19_through24 a = pop_callee_saved19_through22 (emit a 0xa8c163f7)

unfoldable pub push_caller_saved8_through15 : Assembler → Assembler
push_caller_saved8_through15 a =
    emit (emit (emit (emit a 0xa9bf27e8) 0xa9bf2fea) 0xa9bf37ec) 0xa9bf3fee

unfoldable pub pop_caller_saved8_through15 : Assembler → Assembler
pop_caller_saved8_through15 a =
    emit (emit (emit (emit a 0xa8c13fee) 0xa8c137ec) 0xa8c12fea) 0xa8c127e8

unfoldable pub push_caller_saved5_through15 : Assembler → Assembler
unfolding push_caller_saved8_through15
push_caller_saved5_through15 a = push_caller_saved8_through15 (emit (emit a 0xa9bf1be5) 0xa9bf7be7)

unfoldable pub pop_caller_saved5_through15 : Assembler → Assembler
unfolding pop_caller_saved8_through15
pop_caller_saved5_through15 a = emit (emit (pop_caller_saved8_through15 a) 0xa8c17be7) 0xa8c11be5

unfoldable pub push_callee_saved25_through28 : Assembler → Assembler
push_callee_saved25_through28 a = emit (emit a 0xa9bf6bf9) 0xa9bf73fb

unfoldable pub pop_callee_saved25_through28 : Assembler → Assembler
pop_callee_saved25_through28 a = emit (emit a 0xa8c173fb) 0xa8c16bf9

unfoldable pub dmb_ish : Assembler → Assembler
dmb_ish a = emit a 0xd5033bbf

unfoldable pub isb : Assembler → Assembler
isb a = emit a 0xd5033fdf

unfoldable pub ret : Assembler → Assembler
ret a = emit a 0xd65f03c0
