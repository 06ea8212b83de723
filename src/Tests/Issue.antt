-- ===== src/Tests/Issue.antt =====
-- The issue queue of src/issue.cpp with two operations, of which the older waits for a source.
use boom.Base.{◌≡◌, refl, true}
use boom.Types.Codes.{iq_alu}
use boom.Types.Uop.{MicroOp, micro_op_init}
use boom.State.{IssueQueueState, issue_queue_state_init, IssueState, issue_state_init}
use boom.Base.{set}
use boom.Issue.{waiting, schedule, compact}
use boom.Execute.{first_issued}
use boom.Issue.Order.{
  IsCompacted, compact-IsCompacted, take_ready, offered, new_slot, to_list, schedule_refines,
}

abbrev older : MicroOp
older = record micro_op_init {
  uopc = 1;
  iq_type = iq_alu;
  rename = record micro_op_init.rename { prs1_busy = true };
}

abbrev younger : MicroOp
younger = record micro_op_init { uopc = 2; iq_type = iq_alu }

abbrev uneven : IssueQueueState
uneven = record issue_queue_state_init {
  entries = set (set issue_queue_state_init.entries 5 (new_slot younger)) 3 (new_slot older);
}

abbrev two_waiting : IssueState
two_waiting = record issue_state_init { alu_iq = compact uneven }

schedule_refines_example :
    let iss' = schedule true younger two_waiting in
    let (left, chosen) = take_ready (offered true younger two_waiting.alu_iq) in
    IsCompacted iss'.alu_iq
    × (waiting iss'.alu_iq.entries ≡ left)
    × (first_issued iss'.issued_valids iss'.issued_uops ≡ to_list chosen)
schedule_refines_example =
    schedule_refines true younger two_waiting (compact-IsCompacted uneven refl)
