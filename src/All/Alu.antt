-- ===== src/All/Alu.antt =====
-- `execute_alu_unit` of src/boom_all.cpp: one operation of the integer unit, which starts the divider.
pub mod Division
use boom.Base.{
  ℕ, ◌+◌, ◌-◌, ◌*◌, ◌^◌, ◌<<<◌, ◌>>>◌, bit_and, bit_or, bit_xor, u32, u64, sext_32_64, sra32, sra64,
  ltb_signed, Bool, true, false, not, ◌&&◌, ◌||◌, ◌==◌, ◌!=◌, ltb, leb, if◌then◌else◌,
}
use boom.Types.Codes.{op1_imu, op1_pc, op2_imm, op2_imz, op2_imu}
use boom.Types.Uop.{MicroOp}
use boom.State.{AluResult}
use boom.Decode.Uopc
use boom.Execute.{sext32, add32, sub32, bool_bit, displaced}
use boom.All.Multiply.{compute_mul}
use boom.All.Divider.{DividerState}

-- Lines 1347 to 1357.
abbrev pub first_operand : MicroOp → ℕ → ℕ → ℕ
first_operand u rs1 pc =
    if u.ctrl.op1_sel == op1_pc then pc else if u.ctrl.op1_sel == op1_imu then 0 else rs1

abbrev pub second_operand : MicroOp → ℕ → ℕ
second_operand u rs2 =
    if u.ctrl.op2_sel == op2_imm || u.ctrl.op2_sel == op2_imz
    then sext_32_64 u.imm_packed
    else if u.ctrl.op2_sel == op2_imu
    then u.imm_packed
    else rs2

abbrev pub one_of : ℕ → ℕ → ℕ → Bool
one_of c a b = c == a || c == b

-- Lines 1360 to 1419: the cases that only compute a value; the rest, and the default, leave 0.
unfoldable pub unit_value : ℕ → MicroOp → ℕ → ℕ → ℕ → ℕ → ℕ
unit_value c u rs1 rs2 op1 op2 =
    if one_of c Uopc.add Uopc.addi || c == Uopc.auipc
    then u64 (op1 + op2)
    else if c == Uopc.sub
    then u64 (op1 + 2 ^ 64 - op2)
    else if one_of c Uopc.addw Uopc.addiw
    then sext32 (add32 rs1 u.imm_packed)
    else if c == Uopc.subw
    then sext32 (sub32 rs1 rs2)
    else if one_of c Uopc.sll Uopc.slli
    then u64 (op1 <<< bit_and op2 0x3F)
    else if one_of c Uopc.sllw Uopc.slliw
    then sext32 (u32 (u32 rs1 <<< bit_and u.imm_packed 0x1F))
    else if one_of c Uopc.srl Uopc.srli
    then op1 >>> bit_and op2 0x3F
    else if one_of c Uopc.srlw Uopc.srliw
    then sext32 (u32 rs1 >>> bit_and u.imm_packed 0x1F)
    else if one_of c Uopc.sra Uopc.srai
    then sra64 op1 (bit_and op2 0x3F)
    else if one_of c Uopc.sraw Uopc.sraiw
    then sext32 (sra32 (u32 rs1) (bit_and u.imm_packed 0x1F))
    else if one_of c Uopc.slt Uopc.slti
    then bool_bit (ltb_signed op1 op2)
    else if one_of c Uopc.sltu Uopc.sltiu
    then bool_bit (ltb op1 op2)
    else if one_of c Uopc.xor Uopc.xori
    then bit_xor op1 op2
    else if one_of c Uopc.or Uopc.ori
    then bit_or op1 op2
    else if one_of c Uopc.and Uopc.andi
    then bit_and op1 op2
    else if c == Uopc.lui
    then u.imm_packed
    else if one_of c Uopc.mul Uopc.mulw
    then u64 (sext_32_64 (u32 rs1) * sext_32_64 (u32 rs2))
    else if c == Uopc.mulh
    then compute_mul 1 rs1 rs2
    else if c == Uopc.mulhsu
    then compute_mul 2 rs1 rs2
    else if c == Uopc.mulhu
    then compute_mul 3 rs1 rs2
    else 0

-- Lines 1491 to 1493.
abbrev pub is_word_code : ℕ → Bool
is_word_code c =
    c == Uopc.addw
    || c == Uopc.subw
    || c == Uopc.addiw
    || c == Uopc.sllw
    || c == Uopc.srlw
    || c == Uopc.sraw
    || c == Uopc.slliw
    || c == Uopc.srliw
    || c == Uopc.sraiw

abbrev pub is_division : ℕ → Bool
is_division c = leb Uopc.div c && leb c Uopc.remuw

abbrev pub is_word_division : ℕ → Bool
is_word_division c = c == Uopc.divw || c == Uopc.divuw || c == Uopc.remw || c == Uopc.remuw

abbrev pub is_signed_division : ℕ → Bool
is_signed_division c = c == Uopc.div || c == Uopc.rem || c == Uopc.divw || c == Uopc.remw

-- Lines 1439 to 1444.
abbrev pub division_operand : MicroOp → ℕ → ℕ
division_operand u x =
    if is_signed_division u.uopc && is_word_division u.uopc then sext_32_64 (u32 x) else x

-- Lines 1424 to 1444.
abbrev pub begin_division : MicroOp → ℕ → ℕ → DividerState
begin_division u rs1 rs2 = record {
  busy = true;
  is_signed = is_signed_division u.uopc;
  is_word = is_word_division u.uopc;
  dividend = division_operand u rs1;
  divisor = division_operand u rs2;
  pdst = u.rename.pdst;
  rob_idx = u.queue.rob_idx;
  count = 0;
  quotient = 0;
  remainder = 0;
  uop = u;
}

-- Lines 1423 to 1445: a divider at work is left alone.
unfoldable pub start_division : MicroOp → ℕ → ℕ → DividerState → DividerState
start_division u rs1 rs2 d = if not d.busy then begin_division u rs1 rs2 else d

-- Lines 1461 to 1484: the condition of a branch.
unfoldable pub unit_taken : ℕ → ℕ → ℕ → Bool
unit_taken c rs1 rs2 =
    if c == Uopc.beq
    then rs1 == rs2
    else if c == Uopc.bne
    then rs1 != rs2
    else if c == Uopc.blt
    then ltb_signed rs1 rs2
    else if c == Uopc.bge
    then not (ltb_signed rs1 rs2)
    else if c == Uopc.bltu
    then ltb rs1 rs2
    else not (ltb rs1 rs2)

-- The three places that one call writes: the result, the caller's flag and the divider.
pub record AluStep : Type 0 where
  pub result : AluResult
  pub div_busy : Bool
  pub div_state : DividerState

-- Lines 1336 to 1342.
abbrev pub cleared : AluResult → MicroOp → AluResult
cleared r u = record r {
  valid = true;
  uop = u;
  result = 0;
  exception = false;
  exc_cause = 0;
  mispredict = false;
  redirect_pc = 0;
}

abbrev pub jump_to : AluResult → ℕ → Bool → ℕ → AluResult
jump_to r v taken target = record r { result = v; mispredict = taken; redirect_pc = target }

unfoldable pub unit_result : MicroOp → ℕ → ℕ → ℕ → AluResult → AluResult
unfolding unit_value unit_taken
unit_result u rs1 rs2 pc r =
    if u.uopc == Uopc.jal
    then jump_to r (u64 (pc + 4)) true (displaced pc u.imm_packed)
    else if u.uopc == Uopc.jalr
    then jump_to r (u64 (pc + 4)) true (bit_and (displaced rs1 u.imm_packed) (2 ^ 64 - 2))
    else if leb Uopc.beq u.uopc && leb u.uopc Uopc.bgeu
    then jump_to r 0 (unit_taken u.uopc rs1 rs2) (displaced pc u.imm_packed)
    else record r {
      result = unit_value u.uopc u rs1 rs2 (first_operand u rs1 pc) (second_operand u rs2);
    }

unfoldable pub execute_alu_unit : AluResult → MicroOp → ℕ → ℕ → ℕ → Bool → DividerState → AluStep
unfolding unit_result start_division
execute_alu_unit r u rs1 rs2 pc div_busy d =
    if is_division u.uopc
    then record {
      result = record (cleared r u) { valid = false };
      div_busy = true;
      div_state = start_division u rs1 rs2 d;
    }
    else (let v = unit_result u rs1 rs2 pc (cleared r u) in
        record {
          result = if is_word_code u.uopc then record v { result = sext32 v.result } else v;
          div_busy = div_busy;
          div_state = d;
        })
