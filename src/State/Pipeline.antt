-- ===== src/State/Pipeline.antt =====
-- The state of the in-order stages (include/boom_state.hpp). DISPATCH_WIDTH is 1, so each array of
-- one lane is its element: `dec_uops[0]` is `dec_uop`, `alu_results[0]` is `alu_result`.
use boom.Base.{ℕ, zero, suc, Bool, true, false, List, [], ◌∷◌, ◌-◌, replicate}
use boom.Config.{reset_vector, logical_reg_count, max_branch_count, int_phys_regs}
use boom.Types.Codes.{prv_m}
use boom.Types.Uop.{MicroOp, micro_op_init}

pub record FrontendState : Type 0 where
  pub pc : ℕ
  pub reset_done : Bool
  pub request_sent : Bool
  pub fetch_id : ℕ
  pub pending_fetch_id : ℕ
  pub response_received : Bool
  pub resp_address : ℕ
  pub resp_instruction : ℕ
  pub resp_exception : Bool
  pub resp_exc_cause : ℕ
  pub stalled : Bool
  pub flush : Bool
  pub fetch_packet_valid : Bool
  pub fetch_uop : MicroOp

abbrev pub frontend_state_init : FrontendState
frontend_state_init = record {
  pc = reset_vector;
  reset_done = false;
  request_sent = false;
  fetch_id = 0;
  pending_fetch_id = 0;
  response_received = false;
  resp_address = 0;
  resp_instruction = 0;
  resp_exception = false;
  resp_exc_cause = 0;
  stalled = false;
  flush = false;
  fetch_packet_valid = false;
  fetch_uop = micro_op_init;
}

pub record DecodeState : Type 0 where
  pub dec_uop : MicroOp
  pub dec_valid : Bool

abbrev pub decode_state_init : DecodeState
decode_state_init = record { dec_uop = micro_op_init; dec_valid = false }

pub record RenameMapTableState : Type 0 where
  pub map_table : List ℕ
  pub committed_map_table : List ℕ
  pub br_snapshots : List (List ℕ)

abbrev pub rename_map_table_state_init : RenameMapTableState
rename_map_table_state_init = record {
  map_table = replicate logical_reg_count 0;
  committed_map_table = replicate logical_reg_count 0;
  br_snapshots = replicate logical_reg_count (replicate max_branch_count 0);
}

pub record RenameFreeListState : Type 0 where
  pub free_list : List ℕ
  pub head : ℕ
  pub tail : ℕ
  pub count : ℕ
  pub busy_table : List Bool

-- The numbers from `i` on, `n` of them.
abbrev pub count_up : ℕ → ℕ → List ℕ
count_up i zero = []
count_up i (suc n) = i ∷ count_up (suc i) n

abbrev pub rename_free_list_state_init : RenameFreeListState
rename_free_list_state_init = record {
  free_list = count_up 0 int_phys_regs;
  head = 1;
  tail = int_phys_regs - 1;
  count = int_phys_regs - 1;
  busy_table = true ∷ replicate (int_phys_regs - 1) false;
}

pub record RenameState : Type 0 where
  pub int_map_table : RenameMapTableState
  pub fp_map_table : RenameMapTableState
  pub int_free_list : RenameFreeListState
  pub fp_free_list : RenameFreeListState
  pub renamed_uop : MicroOp
  pub renamed_valid : Bool

abbrev pub rename_state_init : RenameState
rename_state_init = record {
  int_map_table = rename_map_table_state_init;
  fp_map_table = rename_map_table_state_init;
  int_free_list = rename_free_list_state_init;
  fp_free_list = rename_free_list_state_init;
  renamed_uop = micro_op_init;
  renamed_valid = false;
}

pub record AluResult : Type 0 where
  pub valid : Bool
  pub uop : MicroOp
  pub result : ℕ
  pub exception : Bool
  pub exc_cause : ℕ
  pub mispredict : Bool
  pub redirect_pc : ℕ
  pub memory_valid : Bool
  pub is_load : Bool
  pub is_store : Bool
  pub signed_load : Bool
  pub memory_address : ℕ
  pub store_data : ℕ
  pub memory_mask : ℕ
  pub memory_size : ℕ

abbrev pub alu_result_init : AluResult
alu_result_init = record {
  valid = false;
  uop = micro_op_init;
  result = 0;
  exception = false;
  exc_cause = 0;
  mispredict = false;
  redirect_pc = 0;
  memory_valid = false;
  is_load = false;
  is_store = false;
  signed_load = false;
  memory_address = 0;
  store_data = 0;
  memory_mask = 0;
  memory_size = 0;
}

pub record ExecuteState : Type 0 where
  pub alu_result : AluResult

abbrev pub execute_state_init : ExecuteState
execute_state_init = record { alu_result = alu_result_init }

pub record CsrState : Type 0 where
  pub mstatus : ℕ
  pub misa : ℕ
  pub mie : ℕ
  pub mtvec : ℕ
  pub mscratch : ℕ
  pub mepc : ℕ
  pub mcause : ℕ
  pub mtval : ℕ
  pub mip : ℕ
  pub cycle : ℕ
  pub instret : ℕ
  pub satp : ℕ
  pub priv : ℕ

abbrev pub csr_state_init : CsrState
csr_state_init = record {
  mstatus = 0x0000000a00000000;
  misa = 0x800000000014112d;
  mie = 0;
  mtvec = 0;
  mscratch = 0;
  mepc = 0;
  mcause = 0;
  mtval = 0;
  mip = 0;
  cycle = 0;
  instret = 0;
  satp = 0;
  priv = prv_m;
}
