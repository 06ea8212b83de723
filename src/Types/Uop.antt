-- ===== src/Types/Uop.antt =====
-- struct MicroOp and its parts (include/boom_types.hpp). The constants are what the default
-- constructors and `= {}` give.
use boom.Base.{ℕ, Bool, false}

pub record DecodeControl : Type 0 where
  pub br_type : ℕ
  pub op1_sel : ℕ
  pub op2_sel : ℕ
  pub imm_sel : ℕ
  pub op_fcn : ℕ
  pub fcn_dw : ℕ
  pub csr_cmd : ℕ
  pub is_load : Bool
  pub is_sta : Bool
  pub is_std : Bool

abbrev pub decode_control_init : DecodeControl
decode_control_init = record {
  br_type = 0;
  op1_sel = 0;
  op2_sel = 0;
  imm_sel = 0;
  op_fcn = 0;
  fcn_dw = 0;
  csr_cmd = 0;
  is_load = false;
  is_sta = false;
  is_std = false;
}

pub record BranchInfo : Type 0 where
  pub br_mask : ℕ
  pub br_tag : ℕ
  pub ftq_idx : ℕ
  pub pc_lob : ℕ
  pub edge_inst : Bool
  pub taken : Bool
  pub is_br : Bool
  pub is_jalr : Bool
  pub is_jal : Bool
  pub is_sfb : Bool

abbrev pub branch_info_init : BranchInfo
branch_info_init = record {
  br_mask = 0;
  br_tag = 0;
  ftq_idx = 0;
  pc_lob = 0;
  edge_inst = false;
  taken = false;
  is_br = false;
  is_jalr = false;
  is_jal = false;
  is_sfb = false;
}

pub record RenameInfo : Type 0 where
  pub ldst : ℕ
  pub lrs1 : ℕ
  pub lrs2 : ℕ
  pub lrs3 : ℕ
  pub pdst : ℕ
  pub prs1 : ℕ
  pub prs2 : ℕ
  pub prs3 : ℕ
  pub ppred : ℕ
  pub prs1_busy : Bool
  pub prs2_busy : Bool
  pub prs3_busy : Bool
  pub ppred_busy : Bool
  pub stale_pdst : ℕ
  pub dst_rtype : ℕ
  pub lrs1_rtype : ℕ
  pub lrs2_rtype : ℕ
  pub frs3_en : Bool
  pub fp_val : Bool
  pub fp_single : Bool

abbrev pub rename_info_init : RenameInfo
rename_info_init = record {
  ldst = 0;
  lrs1 = 0;
  lrs2 = 0;
  lrs3 = 0;
  pdst = 0;
  prs1 = 0;
  prs2 = 0;
  prs3 = 0;
  ppred = 0;
  prs1_busy = false;
  prs2_busy = false;
  prs3_busy = false;
  ppred_busy = false;
  stale_pdst = 0;
  dst_rtype = 0;
  lrs1_rtype = 0;
  lrs2_rtype = 0;
  frs3_en = false;
  fp_val = false;
  fp_single = false;
}

pub record QueueInfo : Type 0 where
  pub rob_idx : ℕ
  pub ldq_idx : ℕ
  pub stq_idx : ℕ
  pub rxq_idx : ℕ

abbrev pub queue_info_init : QueueInfo
queue_info_init = record { rob_idx = 0; ldq_idx = 0; stq_idx = 0; rxq_idx = 0 }

pub record MemoryInfo : Type 0 where
  pub mem_cmd : ℕ
  pub mem_size : ℕ
  pub mem_signed : Bool
  pub is_fence : Bool
  pub is_fencei : Bool
  pub is_amo : Bool
  pub uses_ldq : Bool
  pub uses_stq : Bool
  pub ldst_is_rs1 : Bool
  pub ldst_val : Bool

abbrev pub memory_info_init : MemoryInfo
memory_info_init = record {
  mem_cmd = 0;
  mem_size = 0;
  mem_signed = false;
  is_fence = false;
  is_fencei = false;
  is_amo = false;
  uses_ldq = false;
  uses_stq = false;
  ldst_is_rs1 = false;
  ldst_val = false;
}

pub record ExceptionInfo : Type 0 where
  pub exception : Bool
  pub exc_cause : ℕ
  pub xcpt_pf_if : Bool
  pub xcpt_ae_if : Bool
  pub xcpt_ma_if : Bool
  pub bp_debug_if : Bool
  pub bp_xcpt_if : Bool

abbrev pub exception_info_init : ExceptionInfo
exception_info_init = record {
  exception = false;
  exc_cause = 0;
  xcpt_pf_if = false;
  xcpt_ae_if = false;
  xcpt_ma_if = false;
  bp_debug_if = false;
  bp_xcpt_if = false;
}

pub record DebugInfo : Type 0 where
  pub debug_fsrc : ℕ
  pub debug_tsrc : ℕ
  pub debug_inst : ℕ
  pub debug_pc : ℕ

abbrev pub debug_info_init : DebugInfo
debug_info_init = record { debug_fsrc = 0; debug_tsrc = 0; debug_inst = 0; debug_pc = 0 }

pub record MicroOp : Type 0 where
  pub uopc : ℕ
  pub inst : ℕ
  pub debug_inst : ℕ
  pub is_rvc : Bool
  pub debug_pc : ℕ
  pub iq_type : ℕ
  pub fu_code : ℕ
  pub ctrl : DecodeControl
  pub iw_state : ℕ
  pub iw_p1_poisoned : Bool
  pub iw_p2_poisoned : Bool
  pub branch : BranchInfo
  pub imm_packed : ℕ
  pub csr_addr : ℕ
  pub queue : QueueInfo
  pub rename : RenameInfo
  pub exception : Bool
  pub exc_cause : ℕ
  pub bypassable : Bool
  pub mem : MemoryInfo
  pub is_sys_pc2epc : Bool
  pub is_unique : Bool
  pub flush_on_commit : Bool
  pub exc : ExceptionInfo
  pub debug : DebugInfo

abbrev pub micro_op_init : MicroOp
micro_op_init = record {
  uopc = 0;
  inst = 0;
  debug_inst = 0;
  is_rvc = false;
  debug_pc = 0;
  iq_type = 0;
  fu_code = 0;
  ctrl = decode_control_init;
  iw_state = 0;
  iw_p1_poisoned = false;
  iw_p2_poisoned = false;
  branch = branch_info_init;
  imm_packed = 0;
  csr_addr = 0;
  queue = queue_info_init;
  rename = rename_info_init;
  exception = false;
  exc_cause = 0;
  bypassable = false;
  mem = memory_info_init;
  is_sys_pc2epc = false;
  is_unique = false;
  flush_on_commit = false;
  exc = exception_info_init;
  debug = debug_info_init;
}
