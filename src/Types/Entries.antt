-- ===== src/Types/Entries.antt =====
-- The entries of the reorder buffer and of the issue queue, the branch update and the commit record
-- (include/boom_types.hpp).
use boom.Base.{ℕ, Bool, false}
use boom.Types.Uop.{MicroOp, micro_op_init}

pub record RobEntry : Type 0 where
  pub valid : Bool
  pub busy : Bool
  pub unsafe : Bool
  pub exception : Bool
  pub uop : MicroOp
  pub memory_valid : Bool
  pub is_load : Bool
  pub is_store : Bool
  pub signed_load : Bool
  pub memory_request_sent : Bool
  pub memory_completed : Bool
  pub memory_address : ℕ
  pub memory_data : ℕ
  pub memory_mask : ℕ
  pub memory_size : ℕ
  pub memory_transaction_id : ℕ

abbrev pub rob_entry_init : RobEntry
rob_entry_init = record {
  valid = false;
  busy = false;
  unsafe = false;
  exception = false;
  uop = micro_op_init;
  memory_valid = false;
  is_load = false;
  is_store = false;
  signed_load = false;
  memory_request_sent = false;
  memory_completed = false;
  memory_address = 0;
  memory_data = 0;
  memory_mask = 0;
  memory_size = 0;
  memory_transaction_id = 0;
}

pub record IssueSlotEntry : Type 0 where
  pub valid : Bool
  pub request : Bool
  pub granted : Bool
  pub killed : Bool
  pub pdst_busy : Bool
  pub prs1_busy : Bool
  pub prs2_busy : Bool
  pub prs3_busy : Bool
  pub uop : MicroOp
  pub prs1_data : ℕ
  pub prs2_data : ℕ
  pub prs3_data : ℕ

abbrev pub issue_slot_entry_init : IssueSlotEntry
issue_slot_entry_init = record {
  valid = false;
  request = false;
  granted = false;
  killed = false;
  pdst_busy = false;
  prs1_busy = false;
  prs2_busy = false;
  prs3_busy = false;
  uop = micro_op_init;
  prs1_data = 0;
  prs2_data = 0;
  prs3_data = 0;
}

pub record BranchUpdate : Type 0 where
  pub resolve_mask : ℕ
  pub mispredict_mask : ℕ
  pub cfi_type : ℕ
  pub pc_sel : ℕ
  pub br_tag : ℕ
  pub valid : Bool
  pub mispredict : Bool
  pub taken : Bool
  pub jalr_target : ℕ
  pub target_offset : ℕ
  pub uop : MicroOp

abbrev pub branch_update_init : BranchUpdate
branch_update_init = record {
  resolve_mask = 0;
  mispredict_mask = 0;
  cfi_type = 0;
  pc_sel = 0;
  br_tag = 0;
  valid = false;
  mispredict = false;
  taken = false;
  jalr_target = 0;
  target_offset = 0;
  uop = micro_op_init;
}

pub record CommitEntry : Type 0 where
  pub valid : Bool
  pub pc : ℕ
  pub inst : ℕ
  pub rd : ℕ
  pub priv : ℕ
  pub rd_value : ℕ
  pub exception : Bool
  pub rd_valid : Bool
  pub exc_cause : ℕ
  pub branch_mispredict : Bool
  pub memory_valid : Bool
  pub is_store : Bool
  pub memory_address : ℕ
  pub memory_data : ℕ
  pub store_addr : ℕ
  pub store_data : ℕ
  pub memory_mask : ℕ
  pub store_mask : ℕ

abbrev pub commit_entry_init : CommitEntry
commit_entry_init = record {
  valid = false;
  pc = 0;
  inst = 0;
  rd = 0;
  priv = 0;
  rd_value = 0;
  exception = false;
  rd_valid = false;
  exc_cause = 0;
  branch_mispredict = false;
  memory_valid = false;
  is_store = false;
  memory_address = 0;
  memory_data = 0;
  store_addr = 0;
  store_data = 0;
  memory_mask = 0;
  store_mask = 0;
}
