-- ===== src/All/Decode.antt =====
-- `decode_one` of src/boom_all.cpp. The cases of its switch are in All/Decode/Control and Arithmetic.
pub mod Control
pub mod Arithmetic
pub mod Agreement
use boom.Base.{ℕ, ◌>>>◌, u16, true, ◌&&◌, ◌||◌, ◌==◌, if◌then◌else◌}
use boom.Types.Codes.{
  fu_alu, fu_csr, iq_alu, op1_rs1, op1_x0, op2_imz, op2_x0, csr_w, csr_s, csr_c, dst_int, dst_n,
}
use boom.Types.Uop.{MicroOp, micro_op_init}
use boom.Decode.Uopc
use boom.Decode.Fields.{opcode, rd, f3, f7, lrs2}
use boom.Decode.Opcodes.{illegal_2, operands}
use boom.Decode.{common_fields, raise_illegal}
use Control.{lui, auipc, jal, jalr, branch, load, store, fence}
use Arithmetic.{op_imm, op_imm_32, op, op_32}

-- `ecall` and `ebreak`.
abbrev environment : MicroOp → ℕ → ℕ → MicroOp
environment u c cause = record u {
  uopc = c;
  iq_type = iq_alu;
  fu_code = fu_csr;
  exception = true;
  exc_cause = cause;
  is_sys_pc2epc = true;
}

-- `mret` and `wfi`.
abbrev privileged : MicroOp → ℕ → MicroOp
privileged u c = record u {
  uopc = c;
  iq_type = iq_alu;
  fu_code = fu_csr;
  is_unique = true;
  rename = record u.rename { dst_rtype = dst_n };
}

abbrev csr_access : MicroOp → ℕ → ℕ → MicroOp
csr_access u c cmd = record u { uopc = c; ctrl = record u.ctrl { csr_cmd = cmd } }

pub csr_cases : ℕ → MicroOp → MicroOp
csr_cases f v =
    if f == 1
    then csr_access v Uopc.csrrw csr_w
    else if f == 2
    then csr_access v Uopc.csrrs csr_s
    else if f == 3
    then csr_access v Uopc.csrrc csr_c
    else if f == 5
    then csr_access v Uopc.csrrwi csr_w
    else if f == 6
    then csr_access v Uopc.csrrsi csr_s
    else if f == 7
    then csr_access v Uopc.csrrci csr_c
    else illegal_2 v

pub system : ℕ → MicroOp → MicroOp
system inst u =
    if f3 inst == 0
    then if lrs2 inst == 0 && rd inst == 0 && f7 inst == 0
      then environment u Uopc.ecall 8
      else if lrs2 inst == 1 && rd inst == 0 && f7 inst == 0
      then environment u Uopc.ebreak 3
      else if f7 inst == 0x18 && lrs2 inst == 2
      then privileged u Uopc.mret
      else if f7 inst == 0x08 && lrs2 inst == 5
      then privileged u Uopc.wfi
      else illegal_2 u
    else csr_cases (f3 inst)
        (record (operands u iq_alu fu_csr op1_rs1 op2_imz (lrs2 inst) dst_int) {
          csr_addr = u16 (inst >>> 20);
        })

-- The switch. The cases of the floating point and atomic opcodes do what the default does.
pub by_opcode : ℕ → ℕ → MicroOp → MicroOp
by_opcode c inst u =
    if c == 0x37
    then lui inst u
    else if c == 0x17
    then auipc inst u
    else if c == 0x6F
    then jal inst u
    else if c == 0x67
    then jalr inst u
    else if c == 0x63
    then branch inst u
    else if c == 0x03
    then load inst u
    else if c == 0x23
    then store inst u
    else if c == 0x13
    then op_imm inst u
    else if c == 0x1B
    then op_imm_32 inst u
    else if c == 0x33
    then op inst u
    else if c == 0x3B
    then op_32 inst u
    else if c == 0x0F
    then fence u
    else if c == 0x73
    then system inst u
    else illegal_2 u

-- Lines 389 to 392.
abbrev start : ℕ → ℕ → MicroOp
start inst pc = record micro_op_init { inst = inst; debug_inst = inst; debug_pc = pc }

-- Lines 394 to 404.
abbrev nop_op : ℕ → ℕ → MicroOp
nop_op inst pc = record (operands (start inst pc) iq_alu fu_alu op1_x0 op2_x0 0 dst_n) {
  uopc = Uopc.nop;
  is_unique = true;
}

pub decode_one : ℕ → ℕ → MicroOp
decode_one inst pc =
    if inst == 0x13
    then nop_op inst pc
    else if inst == 0
    then illegal_2 (start inst pc)
    else raise_illegal
        (by_opcode (opcode inst) inst (record (common_fields pc inst) { debug_inst = inst }))
