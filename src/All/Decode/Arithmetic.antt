-- ===== src/All/Decode/Arithmetic.antt =====
-- `decode_one` of src/boom_all.cpp, lines 544 to 651: arithmetic on registers and immediates.
use boom.Base.{ℕ, ◌==◌, if◌then◌else◌}
use boom.Types.Codes.{fu_alu, fu_mul, iq_alu, op1_rs1, op2_rs2, op2_imm, imm_i, dst_int}
use boom.Types.Uop.{MicroOp}
use boom.Decode.Uopc
use boom.Decode.Fields.{f3, f7, extract_imm_i}
use boom.Decode.Opcodes.{illegal_no_cause, operands, word_sized}
use boom.All.Decode.Control.{with_imm_sel}

abbrev pub with_code : MicroOp → ℕ → ℕ → MicroOp
with_code u c fcn = record u { uopc = c; ctrl = record u.ctrl { op_fcn = fcn } }

abbrev pub shift_right : MicroOp → ℕ → ℕ → ℕ → MicroOp
shift_right v g logical arithmetic =
    if g == 0
    then with_code v logical 6
    else if g == 0x20
    then with_code v arithmetic 7
    else illegal_no_cause v

unfoldable pub op_imm_cases : ℕ → ℕ → MicroOp → MicroOp
op_imm_cases f g v =
    if f == 0
    then with_code v Uopc.addi 0
    else if f == 1
    then with_code v Uopc.slli 1
    else if f == 2
    then with_code v Uopc.slti 2
    else if f == 3
    then with_code v Uopc.sltiu 3
    else if f == 4
    then with_code v Uopc.xori 4
    else if f == 5
    then shift_right v g Uopc.srli Uopc.srai
    else if f == 6
    then with_code v Uopc.ori 8
    else if f == 7
    then with_code v Uopc.andi 9
    else illegal_no_cause v

unfoldable pub op_imm : ℕ → MicroOp → MicroOp
unfolding op_imm_cases
op_imm inst u =
    op_imm_cases (f3 inst) (f7 inst)
      (with_imm_sel (operands u iq_alu fu_alu op1_rs1 op2_imm (extract_imm_i inst) dst_int) imm_i)

unfoldable pub op_imm_32_cases : ℕ → ℕ → MicroOp → MicroOp
op_imm_32_cases f g v =
    if f == 0
    then with_code v Uopc.addiw 0
    else if f == 1
    then with_code v Uopc.slliw 1
    else if f == 5
    then shift_right v g Uopc.srliw Uopc.sraiw
    else illegal_no_cause v

unfoldable pub op_imm_32 : ℕ → MicroOp → MicroOp
unfolding op_imm_32_cases
op_imm_32 inst u = op_imm_32_cases (f3 inst) (f7 inst) (
    word_sized
      (with_imm_sel (operands u iq_alu fu_alu op1_rs1 op2_imm (extract_imm_i inst) dst_int) imm_i))

unfoldable pub mul_cases : ℕ → MicroOp → MicroOp
mul_cases f v =
    if f == 0
    then with_code v Uopc.mul 0
    else if f == 1
    then with_code v Uopc.mulh 1
    else if f == 2
    then with_code v Uopc.mulhsu 2
    else if f == 3
    then with_code v Uopc.mulhu 3
    else illegal_no_cause v

unfoldable pub op_cases : ℕ → ℕ → MicroOp → MicroOp
op_cases f g v =
    if f == 0
    then with_code v (if g == 0x20 then Uopc.sub else Uopc.add) 0
    else if f == 1
    then with_code v Uopc.sll 1
    else if f == 2
    then with_code v Uopc.slt 2
    else if f == 3
    then with_code v Uopc.sltu 3
    else if f == 4
    then with_code v Uopc.xor 4
    else if f == 5
    then with_code v (if g == 0x20 then Uopc.sra else Uopc.srl) (if g == 0x20 then 7 else 6)
    else if f == 6
    then with_code v Uopc.or 8
    else if f == 7
    then with_code v Uopc.and 9
    else illegal_no_cause v

unfoldable pub op : ℕ → MicroOp → MicroOp
unfolding mul_cases op_cases
op inst u =
    if f7 inst == 1
    then mul_cases (f3 inst) (operands u iq_alu fu_mul op1_rs1 op2_rs2 u.imm_packed dst_int)
    else op_cases (f3 inst) (f7 inst)
        (operands u iq_alu fu_alu op1_rs1 op2_rs2 u.imm_packed dst_int)

unfoldable pub op_32_cases : ℕ → ℕ → MicroOp → MicroOp
op_32_cases f g v =
    if f == 0
    then with_code v (if g == 0x20 then Uopc.subw else Uopc.addw) 0
    else if f == 1
    then with_code v Uopc.sllw 1
    else if f == 5
    then with_code v (if g == 0x20 then Uopc.sraw else Uopc.srlw) (if g == 0x20 then 7 else 6)
    else illegal_no_cause v

unfoldable pub op_32 : ℕ → MicroOp → MicroOp
unfolding op_32_cases
op_32 inst u =
    if f7 inst == 1
    then (if f3 inst == 0
        then with_code (word_operands fu_mul) Uopc.mulw 0
        else illegal_no_cause (word_operands fu_mul))
    else op_32_cases (f3 inst) (f7 inst) (word_operands fu_alu)
  where
    word_operands : ℕ → MicroOp
    word_operands fu = word_sized (operands u iq_alu fu op1_rs1 op2_rs2 u.imm_packed dst_int)
