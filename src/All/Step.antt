-- ===== src/All/Step.antt =====
-- `decode_module` of src/boom_all.cpp and its `boom_core_step`, lines 1907 to 1921, which calls the
-- modules of the file in turn. `next` and `current` are there the same object. Its `frontend_module` and
-- `lsu_module` only copy their state, so the step leaves them out.
use boom.Base.{
  ℕ, ◌>>>◌, bit_and, u16, u32, Bool, true, false, not, ◌||◌, ◌==◌, if◌then◌else◌, [], ◌∷◌,
  replicate,
}
use boom.Config.{issue_width}
use boom.Types.Uop.{micro_op_init}
use boom.State.{
  BoomCoreState, boom_core_state_init, DecodeState, FrontendState, issue_queue_state_init,
  rob_internal_state_init, alu_result_init,
}
use boom.All.Rvc.{decompress_rvc}
use boom.All.Decode.{decode_one}
use boom.All.Branch.{branch_module}
use boom.All.Rename.{rename_module}
use boom.All.Rob.{RobModuleState}
use boom.All.Rob.Commit.{commit_module}
use boom.All.Issue.{IssueModuleState, issue_module}
use boom.All.Execute.{ExecuteModuleState, execute_module}
use boom.All.Divider.{DividerState}
use boom.All.Csr.{csr_step}

-- The answer of the instruction cache, which the front end of this file keeps.
pub record IcacheResponse : Type 0 where
  pub ready : Bool
  pub resp_data : ℕ

abbrev pub no_uop : DecodeState
no_uop = record { dec_uop = micro_op_init; dec_valid = false }

-- Lines 767 to 776: the instruction, and whether it still counts as compressed.
abbrev pub expand : ℕ → Bool → ℕ × Bool
expand raw_inst is_rvc =
    if is_rvc
    then (decompress_rvc (u16 raw_inst), not (decompress_rvc (u16 raw_inst) == 0x13))
    else (raw_inst, false)

unfoldable pub decode_module : Bool → FrontendState → IcacheResponse → DecodeState
decode_module global_flush frontend icache =
    if global_flush || frontend.stalled
    then no_uop
    else (let raw_inst = if icache.ready then u32 icache.resp_data else 0 in
        let (inst, is_rvc) = expand raw_inst (bit_and (icache.resp_data >>> 32) 1 == 1) in
        record {
          dec_uop = record (decode_one inst frontend.pc) { is_rvc = is_rvc };
          dec_valid = true;
        })

-- The state of the file: `core` holds the fields that the header's state also has, and the last two
-- are its static variables.
pub record StepState : Type 0 where
  pub core : BoomCoreState
  pub icache : IcacheResponse
  pub issue : IssueModuleState
  pub execute : ExecuteModuleState
  pub rob : RobModuleState
  pub div_state : DividerState
  pub next_br_tag : ℕ

abbrev pub rob_module_state_init : RobModuleState
rob_module_state_init = record {
  rob = rob_internal_state_init;
  flush_frontend = false;
  xcpt_uop = micro_op_init;
  xcpt_badvaddr = 0;
  pnr = 0;
}

-- A reset, which keeps the static variables.
abbrev pub reset_state : DividerState → ℕ → StepState
reset_state div_state next_br_tag = record {
  core = boom_core_state_init;
  icache = record { ready = false; resp_data = 0 };
  issue = record {
    mem_iq = issue_queue_state_init;
    alu_iq = issue_queue_state_init;
    fpu_iq = issue_queue_state_init;
    issued_uops = [];
  };
  execute = record {
    alu_result = alu_result_init;
    fp_issued_valids = replicate issue_width false;
    fp_issued_uops = replicate issue_width micro_op_init;
    fp_busy = false;
  };
  rob = rob_module_state_init;
  div_state = div_state;
  next_br_tag = next_br_tag;
}

unfoldable pub step_modules : StepState → StepState
unfolding decode_module
step_modules s =
    let c = s.core in
    let b = branch_module (s.execute.alu_result ∷ []) in
    let d = decode_module c.global_flush c.frontend s.icache in
    let (renamed, tag) =
      rename_module c.rename d.dec_valid d.dec_uop c.global_flush b s.next_br_tag in
    let i = issue_module s.issue renamed s.execute.alu_result b c.global_flush in
    let lanes = execute_module s.execute i.issued_uops c.int_rf s.div_state in
    let (rob, rename, int_rf) = commit_module s.rob lanes.next.alu_result c.int_rf renamed in
    let after = record c { brupdate = b; decode = d; rename = rename; int_rf = int_rf } in
    record {
      core = record after { csr = csr_step c.csr lanes.next.alu_result after };
      icache = s.icache;
      issue = i;
      execute = lanes.next;
      rob = rob;
      div_state = lanes.div_state;
      next_br_tag = tag;
    }

-- One call with `input.reset`.
unfoldable pub boom_core_step : Bool → StepState → StepState
unfolding step_modules
boom_core_step reset s = if reset then reset_state s.div_state s.next_br_tag else step_modules s
