-- ===== src/Decode/Opcodes.antt =====
-- src/decode.cpp, lines 121 to 217: one function for each case of the switch over the opcode. Each takes
-- the instruction word and the micro-operation with the common fields.
use boom.Base.{ℕ, ◌>>>◌, u16, Bool, true, false, ◌&&◌, ◌==◌, ◌!=◌, if◌then◌else◌}
use boom.Types.Codes.{
  fu_alu, fu_mul, fu_csr, fu_mem, iq_mem, iq_alu, br_ne, br_eq, br_ge, br_geu, br_lt, br_ltu, br_j,
  br_jr, op1_rs1, op1_pc, op1_x0, op2_rs2, op2_imm, op2_imu, op2_imz, csr_w, csr_s, csr_c, dst_int,
  dst_x0, dst_n,
}
use boom.Types.Uop.{MicroOp}
use boom.Decode.Uopc
use boom.Decode.Fields.{
  rd, f3, f7, extract_imm_i, extract_imm_s, extract_imm_b, extract_imm_u, extract_imm_j,
}

-- `uop.uopc=UOPC_ILLEGAL; uop.exception=true;`, where no cause is set.
abbrev pub illegal_no_cause : MicroOp → MicroOp
illegal_no_cause u = record u { uopc = Uopc.illegal; exception = true }

-- The same with `uop.exc_cause=2`.
abbrev pub illegal_2 : MicroOp → MicroOp
illegal_2 u = record u { uopc = Uopc.illegal; exception = true; exc_cause = 2 }

-- `uop.uopc=…`
abbrev with_uopc : MicroOp → ℕ → MicroOp
with_uopc u c = record u { uopc = c }

-- The unit, operand, immediate and destination fields that most cases set.
abbrev pub operands : MicroOp → ℕ → ℕ → ℕ → ℕ → ℕ → ℕ → MicroOp
operands u iq fu op1 op2 imm dst = record u {
  iq_type = iq;
  fu_code = fu;
  ctrl = record u.ctrl { op1_sel = op1; op2_sel = op2 };
  imm_packed = imm;
  rename = record u.rename { dst_rtype = dst };
}

unfoldable pub lui : ℕ → MicroOp → MicroOp
lui inst u =
    with_uopc (operands u iq_alu fu_alu op1_x0 op2_imu (extract_imm_u inst) dst_int) Uopc.lui

unfoldable pub auipc : ℕ → MicroOp → MicroOp
auipc inst u =
    with_uopc (operands u iq_alu fu_alu op1_pc op2_imu (extract_imm_u inst) dst_int) Uopc.auipc

-- The destination of `jal` and `jalr`.
abbrev link_dst : ℕ → ℕ
link_dst inst = if rd inst != 0 then dst_int else dst_x0

unfoldable pub jal : ℕ → MicroOp → MicroOp
jal inst u =
    let v = operands u iq_alu fu_alu op1_pc op2_imm (extract_imm_j inst) (link_dst inst) in
    record v {
      uopc = Uopc.jal;
      ctrl = record v.ctrl { br_type = br_j };
      branch = record v.branch { is_jal = true };
    }

unfoldable pub jalr : ℕ → MicroOp → MicroOp
jalr inst u =
    let v = operands u iq_alu fu_alu op1_rs1 op2_imm (extract_imm_i inst) (link_dst inst) in
    record v {
      uopc = Uopc.jalr;
      ctrl = record v.ctrl { br_type = br_jr };
      branch = record v.branch { is_jalr = true };
    }

abbrev branch_kind : MicroOp → ℕ → ℕ → MicroOp
branch_kind u c br = record u { uopc = c; ctrl = record u.ctrl { br_type = br } }

unfoldable pub branch_cases : ℕ → MicroOp → MicroOp
branch_cases f v =
    if f == 0
    then branch_kind v Uopc.beq br_eq
    else if f == 1
    then branch_kind v Uopc.bne br_ne
    else if f == 4
    then branch_kind v Uopc.blt br_lt
    else if f == 5
    then branch_kind v Uopc.bge br_ge
    else if f == 6
    then branch_kind v Uopc.bltu br_ltu
    else if f == 7
    then branch_kind v Uopc.bgeu br_geu
    else illegal_2 v

unfoldable pub branch : ℕ → MicroOp → MicroOp
unfolding branch_cases
branch inst u =
    let v = operands u iq_alu fu_alu op1_rs1 op2_rs2 (extract_imm_b inst) dst_n in
    branch_cases (f3 inst) (record v { branch = record v.branch { is_br = true } })

abbrev access : MicroOp → ℕ → ℕ → Bool → MicroOp
access u c size signed = record u {
  uopc = c;
  mem = record u.mem { mem_size = size; mem_signed = signed };
}

unfoldable pub load_cases : ℕ → MicroOp → MicroOp
load_cases f v =
    if f == 0
    then access v Uopc.lb 0 true
    else if f == 1
    then access v Uopc.lh 1 true
    else if f == 2
    then access v Uopc.lw 2 true
    else if f == 3
    then access v Uopc.ld 3 true
    else if f == 4
    then access v Uopc.lbu 0 false
    else if f == 5
    then access v Uopc.lhu 1 false
    else if f == 6
    then access v Uopc.lwu 2 false
    else illegal_2 v

unfoldable pub load : ℕ → MicroOp → MicroOp
unfolding load_cases
load inst u =
    let v = operands u iq_mem fu_mem op1_rs1 op2_imm (extract_imm_i inst) dst_int in
    load_cases (f3 inst) (record v {
      ctrl = record v.ctrl { is_load = true; is_sta = false };
      mem = record v.mem { mem_signed = true; uses_ldq = true };
    })

unfoldable pub store_cases : ℕ → MicroOp → MicroOp
store_cases f v =
    if f == 0
    then access v Uopc.sb 0 v.mem.mem_signed
    else if f == 1
    then access v Uopc.sh 1 v.mem.mem_signed
    else if f == 2
    then access v Uopc.sw 2 v.mem.mem_signed
    else if f == 3
    then access v Uopc.sd 3 v.mem.mem_signed
    else illegal_2 v

unfoldable pub store : ℕ → MicroOp → MicroOp
unfolding store_cases
store inst u =
    let v = operands u iq_mem fu_mem op1_rs1 op2_rs2 (extract_imm_s inst) dst_n in
    store_cases (f3 inst) (record v {
      ctrl = record v.ctrl { is_load = false; is_sta = true };
      mem = record v.mem { uses_stq = true };
    })

unfoldable pub op_imm_cases : ℕ → ℕ → MicroOp → MicroOp
op_imm_cases f g v =
    if f == 0
    then with_uopc v Uopc.addi
    else if f == 2
    then with_uopc v Uopc.slti
    else if f == 3
    then with_uopc v Uopc.sltiu
    else if f == 4
    then with_uopc v Uopc.xori
    else if f == 6
    then with_uopc v Uopc.ori
    else if f == 7
    then with_uopc v Uopc.andi
    else if f == 1
    then with_uopc v Uopc.slli
    else if f == 5
    then with_uopc v (if g == 0 then Uopc.srli else Uopc.srai)
    else illegal_no_cause v

unfoldable pub op_imm : ℕ → MicroOp → MicroOp
unfolding op_imm_cases
op_imm inst u =
    op_imm_cases (f3 inst) (f7 inst)
      (operands u iq_alu fu_alu op1_rs1 op2_imm (extract_imm_i inst) dst_int)

abbrev pub word_sized : MicroOp → MicroOp
word_sized u = record u { ctrl = record u.ctrl { fcn_dw = 1 } }

unfoldable pub op_imm_32_cases : ℕ → ℕ → MicroOp → MicroOp
op_imm_32_cases f g v =
    if f == 0
    then with_uopc v Uopc.addiw
    else if f == 1
    then with_uopc v Uopc.slliw
    else if f == 5
    then with_uopc v (if g == 0 then Uopc.srliw else Uopc.sraiw)
    else illegal_no_cause v

unfoldable pub op_imm_32 : ℕ → MicroOp → MicroOp
unfolding op_imm_32_cases
op_imm_32 inst u =
    op_imm_32_cases (f3 inst) (f7 inst)
      (word_sized (operands u iq_alu fu_alu op1_rs1 op2_imm (extract_imm_i inst) dst_int))

unfoldable pub mul_cases : ℕ → MicroOp → MicroOp
mul_cases f v = if f == 0 then with_uopc v Uopc.mul else illegal_no_cause v

unfoldable pub op_cases : ℕ → ℕ → MicroOp → MicroOp
op_cases f g v =
    if f == 0
    then with_uopc v (if g == 0x20 then Uopc.sub else Uopc.add)
    else if f == 1
    then with_uopc v Uopc.sll
    else if f == 2
    then with_uopc v Uopc.slt
    else if f == 3
    then with_uopc v Uopc.sltu
    else if f == 4
    then with_uopc v Uopc.xor
    else if f == 5
    then with_uopc v (if g == 0x20 then Uopc.sra else Uopc.srl)
    else if f == 6
    then with_uopc v Uopc.or
    else if f == 7
    then with_uopc v Uopc.and
    else illegal_no_cause v

unfoldable pub op : ℕ → MicroOp → MicroOp
unfolding mul_cases op_cases
op inst u =
    if f7 inst == 1
    then mul_cases (f3 inst) (operands u iq_alu fu_mul op1_rs1 op2_rs2 u.imm_packed dst_int)
    else op_cases (f3 inst) (f7 inst)
        (operands u iq_alu fu_alu op1_rs1 op2_rs2 u.imm_packed dst_int)

unfoldable pub op_32_cases : ℕ → ℕ → MicroOp → MicroOp
op_32_cases f g v =
    if f == 0
    then with_uopc v (if g == 0x20 then Uopc.subw else Uopc.addw)
    else if f == 1
    then with_uopc v Uopc.sllw
    else if f == 5
    then with_uopc v (if g == 0x20 then Uopc.sraw else Uopc.srlw)
    else illegal_no_cause v

unfoldable pub op_32 : ℕ → MicroOp → MicroOp
unfolding op_32_cases
op_32 inst u =
    op_32_cases (f3 inst) (f7 inst)
      (word_sized (operands u iq_alu fu_alu op1_rs1 op2_rs2 u.imm_packed dst_int))

unfoldable pub fence : MicroOp → MicroOp
fence u = record u {
  uopc = Uopc.fence;
  iq_type = iq_mem;
  fu_code = fu_mem;
  rename = record u.rename { dst_rtype = dst_n };
}

abbrev csr_access : MicroOp → ℕ → ℕ → MicroOp
csr_access u c cmd = record u { uopc = c; ctrl = record u.ctrl { csr_cmd = cmd } }

unfoldable pub csr_cases : ℕ → MicroOp → MicroOp
csr_cases f v =
    if f == 1
    then csr_access v Uopc.csrrw csr_w
    else if f == 2
    then csr_access v Uopc.csrrs csr_s
    else if f == 3
    then csr_access v Uopc.csrrc csr_c
    else if f == 5
    then csr_access v Uopc.csrrwi csr_w
    else if f == 6
    then csr_access v Uopc.csrrsi csr_s
    else if f == 7
    then csr_access v Uopc.csrrci csr_c
    else illegal_no_cause v

pub system : ℕ → MicroOp → MicroOp
unfolding csr_cases
system inst u =
    if f3 inst == 0
    then if rd inst == 0 && inst >>> 20 == 0
      then record u {
        uopc = Uopc.ecall;
        iq_type = iq_alu;
        fu_code = fu_csr;
        exception = true;
        exc_cause = 11;
        is_sys_pc2epc = true;
      }
      else record u {
        uopc = Uopc.mret;
        iq_type = iq_alu;
        fu_code = fu_csr;
        rename = record u.rename { dst_rtype = dst_n };
      }
    else csr_cases (f3 inst)
        (record (operands u iq_alu fu_csr op1_rs1 op2_imz u.imm_packed dst_int) {
          csr_addr = u16 (inst >>> 20);
        })

pub unknown : MicroOp → MicroOp
unknown u = record u {
  uopc = Uopc.illegal;
  exception = true;
  exc_cause = 2;
  iq_type = iq_alu;
  fu_code = fu_alu;
}
