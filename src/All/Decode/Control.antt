-- ===== src/All/Decode/Control.antt =====
-- `decode_one` of src/boom_all.cpp, lines 427 to 542 and 653 to 659: upper immediates, jumps, branches,
-- loads, stores and fences. The codes and immediates are those of src/decode.cpp.
use boom.Base.{ℕ, Bool, true, false, ◌==◌, ◌!=◌, if◌then◌else◌}
use boom.Types.Codes.{
  fu_alu, fu_mem, iq_mem, iq_alu, br_ne, br_eq, br_ge, br_geu, br_lt, br_ltu, br_j, br_jr, op1_rs1,
  op1_pc, op1_x0, op2_rs2, op2_imm, op2_imu, imm_i, imm_s, imm_b, imm_u, imm_j, dst_int, dst_x0,
  dst_n,
}
use boom.Types.Uop.{MicroOp}
use boom.Decode.Uopc
use boom.Decode.Fields.{
  rd, f3, lrs2, extract_imm_i, extract_imm_s, extract_imm_b, extract_imm_u, extract_imm_j,
}
use boom.Decode.Opcodes.{illegal_2, operands}

abbrev pub with_imm_sel : MicroOp → ℕ → MicroOp
with_imm_sel u sel = record u { ctrl = record u.ctrl { imm_sel = sel } }

abbrev with_uopc : MicroOp → ℕ → MicroOp
with_uopc u c = record u { uopc = c }

unfoldable pub lui : ℕ → MicroOp → MicroOp
lui inst u =
    with_uopc
      (with_imm_sel (operands u iq_alu fu_alu op1_x0 op2_imu (extract_imm_u inst) dst_int) imm_u)
      Uopc.lui

unfoldable pub auipc : ℕ → MicroOp → MicroOp
auipc inst u =
    with_uopc
      (with_imm_sel (operands u iq_alu fu_alu op1_pc op2_imu (extract_imm_u inst) dst_int) imm_u)
      Uopc.auipc

abbrev link_dst : ℕ → ℕ
link_dst inst = if rd inst != 0 then dst_int else dst_x0

unfoldable pub jal : ℕ → MicroOp → MicroOp
jal inst u =
    let v = operands u iq_alu fu_alu op1_pc op2_imm (extract_imm_j inst) (link_dst inst) in
    record v {
      uopc = Uopc.jal;
      ctrl = record v.ctrl { imm_sel = imm_j; br_type = br_j };
      branch = record v.branch { is_jal = true };
    }

unfoldable pub jalr : ℕ → MicroOp → MicroOp
jalr inst u =
    let v = operands u iq_alu fu_alu op1_rs1 op2_imm (extract_imm_i inst) (link_dst inst) in
    record v {
      uopc = Uopc.jalr;
      ctrl = record v.ctrl { imm_sel = imm_i; br_type = br_jr };
      branch = record v.branch { is_jalr = true };
    }

abbrev branch_kind : MicroOp → ℕ → ℕ → MicroOp
branch_kind u c br = record u { uopc = c; ctrl = record u.ctrl { br_type = br } }

unfoldable pub branch_cases : ℕ → MicroOp → MicroOp
branch_cases f v =
    if f == 0
    then branch_kind v Uopc.beq br_eq
    else if f == 1
    then branch_kind v Uopc.bne br_ne
    else if f == 4
    then branch_kind v Uopc.blt br_lt
    else if f == 5
    then branch_kind v Uopc.bge br_ge
    else if f == 6
    then branch_kind v Uopc.bltu br_ltu
    else if f == 7
    then branch_kind v Uopc.bgeu br_geu
    else illegal_2 v

unfoldable pub branch : ℕ → MicroOp → MicroOp
unfolding branch_cases
branch inst u =
    let v =
      with_imm_sel (operands u iq_alu fu_alu op1_rs1 op2_rs2 (extract_imm_b inst) dst_n) imm_b in
    branch_cases (f3 inst) (record v { branch = record v.branch { is_br = true } })

abbrev access : MicroOp → ℕ → ℕ → Bool → MicroOp
access u c size signed = record u {
  uopc = c;
  mem = record u.mem { mem_size = size; mem_signed = signed };
}

unfoldable pub load_cases : ℕ → MicroOp → MicroOp
load_cases f v =
    if f == 0
    then access v Uopc.lb 0 true
    else if f == 1
    then access v Uopc.lh 1 true
    else if f == 2
    then access v Uopc.lw 2 true
    else if f == 3
    then access v Uopc.ld 3 true
    else if f == 4
    then access v Uopc.lbu 0 false
    else if f == 5
    then access v Uopc.lhu 1 false
    else if f == 6
    then access v Uopc.lwu 2 false
    else illegal_2 v

unfoldable pub load : ℕ → MicroOp → MicroOp
unfolding load_cases
load inst u =
    let v = operands u iq_mem fu_mem op1_rs1 op2_imm (extract_imm_i inst) dst_int in
    load_cases (f3 inst) (record v {
      ctrl = record v.ctrl { imm_sel = imm_i; is_load = true };
      mem = record v.mem { uses_ldq = true };
    })

abbrev store_access : MicroOp → ℕ → ℕ → MicroOp
store_access u c size = record u { uopc = c; mem = record u.mem { mem_size = size } }

unfoldable pub store_cases : ℕ → MicroOp → MicroOp
store_cases f v =
    if f == 0
    then store_access v Uopc.sb 0
    else if f == 1
    then store_access v Uopc.sh 1
    else if f == 2
    then store_access v Uopc.sw 2
    else if f == 3
    then store_access v Uopc.sd 3
    else illegal_2 v

unfoldable pub store : ℕ → MicroOp → MicroOp
unfolding store_cases
store inst u =
    let v = operands u iq_mem fu_mem op1_rs1 op2_rs2 (extract_imm_s inst) dst_n in
    store_cases (f3 inst) (record v {
      ctrl = record v.ctrl { imm_sel = imm_s; is_sta = true };
      mem = record v.mem { uses_stq = true; ldst_is_rs1 = false };
      rename = record v.rename { lrs2 = lrs2 inst };
    })

unfoldable pub fence : MicroOp → MicroOp
fence u = record u {
  uopc = Uopc.fence;
  iq_type = iq_mem;
  fu_code = fu_mem;
  rename = record u.rename { dst_rtype = dst_n };
  is_unique = true;
}
