-- ===== src/Tests/Step.antt =====
-- The reorder buffer, the issue and the execution of src/boom_all.cpp at concrete inputs.
use boom.Base.{◌≡◌, refl, arith, true, false, if◌then◌else◌, [], ◌∷◌, replicate, ◌++◌}
use boom.Types.Codes.{rob_normal, iq_alu}
use boom.Types.Uop.{MicroOp, micro_op_init}
use boom.Types.Entries.{
  RobEntry, rob_entry_init, BranchUpdate, branch_update_init, issue_slot_entry_init,
}
use boom.State.{
  rob_internal_state_init, IssueQueueState, issue_queue_state_init, rename_state_init,
  alu_result_init,
}
use boom.Decode.Uopc
use boom.All.Queue.{slot_of}
use boom.All.Divider.{divider_state_init}
use boom.All.Rob.{RobModuleState, rob_module}
use boom.All.Rob.Cycles.{Inputs, cycle, cycles}
use boom.All.Rob.Stuck.{mispredict_stops_commits}
use boom.All.Issue.{IssueModuleState, issue_module, issue_slots}
use boom.All.Issue.Ready.{take, all_ready, issue_module-issued}
use boom.All.Execute.{execute_module}
use boom.All.Execute.Lost.{later_lanes_lost}
use boom.All.Step.{reset_state, rob_module_state_init}

-- A branch under tag 0 that was executed, and an operation of its path behind it.
abbrev after_branch : MicroOp
after_branch = record micro_op_init {
  uopc = Uopc.add;
  iq_type = iq_alu;
  branch = record micro_op_init.branch { br_mask = 1 };
}

abbrev held_entry : RobEntry
held_entry = record rob_entry_init { valid = true; busy = false; uop = after_branch }

abbrev two_held : RobModuleState
two_held = record rob_module_state_init {
  rob = record rob_internal_state_init {
    entries = held_entry ∷ record held_entry { busy = true } ∷ replicate 30 rob_entry_init;
    tail = 2;
    state = rob_normal;
  };
}

abbrev branch_fails : BranchUpdate
branch_fails = record branch_update_init { valid = true; mispredict = true; mispredict_mask = 1 }

abbrev failing : Inputs
failing = record { result = alu_result_init; brupdate = branch_fails; rename = rename_state_init }

-- A cycle that offers one more operation.
abbrev offering : Inputs
offering = record {
  result = alu_result_init;
  brupdate = branch_update_init;
  rename = record rename_state_init { renamed_uop = after_branch; renamed_valid = true };
}

mispredict_stops_commits_example :
    ((cycles (failing ∷ offering ∷ offering ∷ []) two_held (replicate 32 0)).0.rob.head
      ≡ (cycle failing two_held (replicate 32 0)).0.rob.head)
    × ((cycles (failing ∷ offering ∷ offering ∷ []) two_held (replicate 32 0)).1
        ≡ (cycle failing two_held (replicate 32 0)).1)
unfolding cycle rob_module
mispredict_stops_commits_example =
    mispredict_stops_commits failing (offering ∷ offering ∷ []) two_held (replicate 32 0)
      record { entries_length = refl; head_in = omega arith } refl refl refl refl

-- The branch itself commits in the cycle of its misprediction.
branch_commits : (cycle failing two_held (replicate 32 0)).0.rob.head ≡ 1
unfolding cycle rob_module
branch_commits = refl

abbrev ready_op : MicroOp
ready_op = record micro_op_init { uopc = Uopc.add; iq_type = iq_alu }

abbrev four_ready : IssueQueueState
four_ready = record issue_queue_state_init {
  entries = replicate 4 (slot_of ready_op) ++ replicate 4 issue_slot_entry_init;
  tail = 4;
  count = 4;
}

abbrev four_waiting : IssueModuleState
four_waiting = record {
  mem_iq = issue_queue_state_init;
  alu_iq = four_ready;
  fpu_iq = issue_queue_state_init;
  issued_uops = [];
}

issue_module-issued_example :
    (issue_module four_waiting rename_state_init alu_result_init branch_update_init
      false).issued_uops
    ≡ (if false
        then []
        else take 3 (all_ready four_waiting rename_state_init alu_result_init branch_update_init))
issue_module-issued_example =
    issue_module-issued four_waiting rename_state_init alu_result_init branch_update_init false

three_issued :
    (issue_module four_waiting rename_state_init alu_result_init branch_update_init
      false).issued_uops
    ≡ replicate 3 ready_op
unfolding issue_module issue_slots
three_issued = refl

-- A division, an addition and one more, of which the last is lost.
abbrev division_op : MicroOp
division_op = record ready_op { uopc = Uopc.div }

later_lanes_lost_example :
    execute_module
      (reset_state divider_state_init 0).execute
      (division_op ∷ ready_op ∷ ready_op ∷ [])
      (replicate 52 5)
      divider_state_init
    ≡ execute_module
        (reset_state divider_state_init 0).execute
        (division_op ∷ ready_op ∷ [])
        (replicate 52 5)
        divider_state_init
later_lanes_lost_example =
    later_lanes_lost (reset_state divider_state_init 0).execute (replicate 52 5) divider_state_init
      (division_op ∷ []) ready_op (ready_op ∷ []) refl
