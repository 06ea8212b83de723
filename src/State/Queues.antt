-- ===== src/State/Queues.antt =====
-- The issue queue, the reorder buffer, the load and store queues, and the state of the core
-- (include/boom_state.hpp).
use boom.Base.{ℕ, Bool, false, List, replicate}
use boom.Config.{
  issue_queue_alu_depth, issue_width, rob_depth, stq_depth, ldq_depth, int_phys_regs, fp_phys_regs,
}
use boom.Types.Codes.{RobState, rob_init}
use boom.Types.Uop.{MicroOp, micro_op_init}
use boom.Types.Entries.{
  RobEntry, rob_entry_init, IssueSlotEntry, issue_slot_entry_init, BranchUpdate, branch_update_init,
  CommitEntry, commit_entry_init,
}
use boom.State.Pipeline.{
  FrontendState, frontend_state_init, DecodeState, decode_state_init, RenameState,
  rename_state_init, ExecuteState, execute_state_init, CsrState, csr_state_init,
}

pub record IssueQueueState : Type 0 where
  pub entries : List IssueSlotEntry
  pub head : ℕ
  pub tail : ℕ
  pub count : ℕ

abbrev pub issue_queue_state_init : IssueQueueState
issue_queue_state_init = record {
  entries = replicate issue_queue_alu_depth issue_slot_entry_init;
  head = 0;
  tail = 0;
  count = 0;
}

pub record IssueState : Type 0 where
  pub alu_iq : IssueQueueState
  pub issued_uops : List MicroOp
  pub issued_valids : List Bool

abbrev pub issue_state_init : IssueState
issue_state_init = record {
  alu_iq = issue_queue_state_init;
  issued_uops = replicate issue_width micro_op_init;
  issued_valids = replicate issue_width false;
}

pub record RobInternalState : Type 0 where
  pub entries : List RobEntry
  pub head : ℕ
  pub tail : ℕ
  pub maybe_full : Bool
  pub state : RobState
  pub commit_count : ℕ
  pub last_commit : CommitEntry
  pub commit_valid : Bool

abbrev pub rob_internal_state_init : RobInternalState
rob_internal_state_init = record {
  entries = replicate rob_depth rob_entry_init;
  head = 0;
  tail = 0;
  maybe_full = false;
  state = rob_init;
  commit_count = 0;
  last_commit = commit_entry_init;
  commit_valid = false;
}

pub record StoreQueueEntry : Type 0 where
  pub valid : Bool
  pub address_valid : Bool
  pub data_valid : Bool
  pub committed : Bool
  pub issued_to_memory : Bool
  pub completed : Bool
  pub killed : Bool
  pub rob_idx : ℕ
  pub mask : ℕ
  pub size : ℕ
  pub branch_mask : ℕ
  pub address : ℕ
  pub data_ : ℕ

abbrev pub store_queue_entry_init : StoreQueueEntry
store_queue_entry_init = record {
  valid = false;
  address_valid = false;
  data_valid = false;
  committed = false;
  issued_to_memory = false;
  completed = false;
  killed = false;
  rob_idx = 0;
  mask = 0;
  size = 0;
  branch_mask = 0;
  address = 0;
  data_ = 0;
}

pub record LoadQueueEntry : Type 0 where
  pub valid : Bool
  pub signed_load : Bool
  pub response_pending : Bool
  pub completed : Bool
  pub killed : Bool
  pub rob_idx : ℕ
  pub size : ℕ
  pub branch_mask : ℕ
  pub transaction_id : ℕ
  pub address : ℕ
  pub result : ℕ

abbrev pub load_queue_entry_init : LoadQueueEntry
load_queue_entry_init = record {
  valid = false;
  signed_load = false;
  response_pending = false;
  completed = false;
  killed = false;
  rob_idx = 0;
  size = 0;
  branch_mask = 0;
  transaction_id = 0;
  address = 0;
  result = 0;
}

pub record LsuState : Type 0 where
  pub ldq_head : ℕ
  pub ldq_tail : ℕ
  pub ldq_count : ℕ
  pub stq_head : ℕ
  pub stq_tail : ℕ
  pub stq_count : ℕ
  pub stq : List StoreQueueEntry
  pub ldq : List LoadQueueEntry
  pub next_transaction_id : ℕ
  pub load_response_pending : Bool
  pub pending_load_transaction_id : ℕ
  pub pending_load_rob_idx : ℕ

abbrev pub lsu_state_init : LsuState
lsu_state_init = record {
  ldq_head = 0;
  ldq_tail = 0;
  ldq_count = 0;
  stq_head = 0;
  stq_tail = 0;
  stq_count = 0;
  stq = replicate stq_depth store_queue_entry_init;
  ldq = replicate ldq_depth load_queue_entry_init;
  next_transaction_id = 1;
  load_response_pending = false;
  pending_load_transaction_id = 0;
  pending_load_rob_idx = 0;
}

pub record BoomCoreState : Type 0 where
  pub cycle_count : ℕ
  pub frontend : FrontendState
  pub decode : DecodeState
  pub rename : RenameState
  pub issue : IssueState
  pub execute : ExecuteState
  pub rob : RobInternalState
  pub csr : CsrState
  pub lsu : LsuState
  pub int_rf : List ℕ
  pub fp_rf : List ℕ
  pub brupdate : BranchUpdate
  pub global_flush : Bool
  pub io_success : Bool
  pub io_halted : Bool
  pub io_trap : Bool
  pub tohost : ℕ

abbrev pub boom_core_state_init : BoomCoreState
boom_core_state_init = record {
  cycle_count = 0;
  frontend = frontend_state_init;
  decode = decode_state_init;
  rename = rename_state_init;
  issue = issue_state_init;
  execute = execute_state_init;
  rob = rob_internal_state_init;
  csr = csr_state_init;
  lsu = lsu_state_init;
  int_rf = replicate int_phys_regs 0;
  fp_rf = replicate fp_phys_regs 0;
  brupdate = branch_update_init;
  global_flush = false;
  io_success = false;
  io_halted = false;
  io_trap = false;
  tohost = 0;
}
