-- ===== src/Tests/Units.antt =====
-- The decoder, the multiplier and the divider of src/boom_all.cpp at concrete inputs.
use boom.Base.{◌*◌, ◌/◌, ◌^◌, ◌≡◌, refl, arith, false}
use boom.Types.Uop.{MicroOp, micro_op_init}
use boom.State.{alu_result_init}
use boom.Decode.{decode}
use boom.Decode.Uopc
use boom.Decode.Fields.{opcode, f3}
use boom.All.Decode.{decode_one}
use boom.All.Decode.Agreement.{plain, is_compared, decode_one_agrees}
use boom.All.Multiply.{compute_mul}
use boom.All.Multiply.Bounds.{IsShortBy, lost_carry, mulhu-IsShortBy}
use boom.All.Divider.{divider_state_init}
use boom.All.Divider.Finish.{EndsAfter}
use boom.All.Alu.Division.{calls_for, delivered_value, started, started_ends}

-- `lw x1, 4(x2)`
decode_one_agrees_example : plain (decode_one 0x412083 64) ≡ plain (decode 64 0x412083)
unfolding is_compared opcode f3
decode_one_agrees_example = decode_one_agrees 0x412083 64 (omega arith) (omega arith) refl

-- The carry is 1 here, the upper half 1 and the result 0.
mulhu-IsShortBy_example :
    IsShortBy
      (lost_carry 0xFFFFFFFF 0x100000002)
      (compute_mul 3 0xFFFFFFFF 0x100000002)
      (0xFFFFFFFF * 0x100000002 / 2 ^ 64)
mulhu-IsShortBy_example = mulhu-IsShortBy 0xFFFFFFFF 0x100000002 (omega arith) (omega arith)

mulhu_carry : lost_carry 0xFFFFFFFF 0x100000002 ≡ 1
unfolding lost_carry
mulhu_carry = refl

abbrev remu_op : MicroOp
remu_op = record micro_op_init { uopc = Uopc.remu }

started_ends_example :
    EndsAfter
      (calls_for remu_op 7)
      remu_op
      (delivered_value remu_op 45 7)
      63
      (started alu_result_init remu_op 45 7 0 false divider_state_init)
unfolding calls_for
started_ends_example =
    started_ends alu_result_init remu_op 45 7 0 false divider_state_init 63 refl refl (omega arith)
      (omega arith)

remu_value : delivered_value remu_op 45 7 ≡ 3
unfolding delivered_value
remu_value = refl
