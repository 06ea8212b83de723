-- ===== src/Types/Codes.antt =====
-- The enumerations of include/boom_types.hpp that the core stores in `uint8_t` fields. Such a field
-- starts at 0 and its members are its numbers, so they are constants here; a member that no code
-- names is left out.
use boom.Base.{ℕ}

-- FuCode
abbrev pub fu_alu : ℕ
fu_alu = 0

abbrev pub fu_mul : ℕ
fu_mul = 1

abbrev pub fu_csr : ℕ
fu_csr = 3

abbrev pub fu_mem : ℕ
fu_mem = 5

-- IqType
abbrev pub iq_mem : ℕ
iq_mem = 0

abbrev pub iq_alu : ℕ
iq_alu = 1

-- BrType
abbrev pub br_ne : ℕ
br_ne = 1

abbrev pub br_eq : ℕ
br_eq = 2

abbrev pub br_ge : ℕ
br_ge = 3

abbrev pub br_geu : ℕ
br_geu = 4

abbrev pub br_lt : ℕ
br_lt = 5

abbrev pub br_ltu : ℕ
br_ltu = 6

abbrev pub br_j : ℕ
br_j = 7

abbrev pub br_jr : ℕ
br_jr = 8

-- Op1Sel
abbrev pub op1_rs1 : ℕ
op1_rs1 = 0

abbrev pub op1_imu : ℕ
op1_imu = 1

abbrev pub op1_pc : ℕ
op1_pc = 2

abbrev pub op1_x0 : ℕ
op1_x0 = 3

-- Op2Sel
abbrev pub op2_rs2 : ℕ
op2_rs2 = 0

abbrev pub op2_imm : ℕ
op2_imm = 1

abbrev pub op2_imu : ℕ
op2_imu = 2

abbrev pub op2_imz : ℕ
op2_imz = 3

abbrev pub op2_x0 : ℕ
op2_x0 = 4

-- ImmSel
abbrev pub imm_i : ℕ
imm_i = 0

abbrev pub imm_s : ℕ
imm_s = 1

abbrev pub imm_b : ℕ
imm_b = 2

abbrev pub imm_u : ℕ
imm_u = 3

abbrev pub imm_j : ℕ
imm_j = 4

-- CsrCmd
abbrev pub csr_w : ℕ
csr_w = 2

abbrev pub csr_s : ℕ
csr_s = 3

abbrev pub csr_c : ℕ
csr_c = 4

-- DstRType
abbrev pub dst_int : ℕ
dst_int = 0

abbrev pub dst_x0 : ℕ
dst_x0 = 2

abbrev pub dst_n : ℕ
dst_n = 3

-- PrivilegeMode
abbrev pub prv_m : ℕ
prv_m = 3

-- DmemCommand
abbrev pub dmem_load : ℕ
dmem_load = 0

abbrev pub dmem_store : ℕ
dmem_store = 1

pub data RobState : Type 0 where
  rob_init rob_normal rob_flush rob_exception : RobState
