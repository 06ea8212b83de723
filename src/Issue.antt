-- ===== src/Issue.antt =====
-- src/issue.cpp: the collapsing issue queue, with one implemented execute lane.
pub mod Waiting
pub mod Order
use boom.Base.{
  ◌+◌, ◌-◌, ◌%◌, u8, Bool, true, false, not, ◌&&◌, ◌||◌, ◌==◌, leb, if◌then◌else◌, List, [], ◌∷◌,
  ◌++◌, map, length, replicate, get_or, set, Option, none, some,
}
use boom.Config.{issue_queue_alu_depth, issue_width}
use boom.Types.Codes.{iq_alu, iq_mem}
use boom.Types.Uop.{MicroOp, micro_op_init}
use boom.Types.Entries.{IssueSlotEntry, issue_slot_entry_init}
use boom.State.{BoomCoreState, IssueState, IssueQueueState}

-- Lines 14 and 15.
pub flush_queue : IssueQueueState → IssueQueueState
flush_queue q = record q {
  entries = map (λ (e : IssueSlotEntry). record e { valid = false }) q.entries;
  count = 0;
  head = 0;
  tail = 0;
}

-- Lines 23 to 27: what dispatch writes into the slot at the tail.
pub fill_slot : MicroOp → IssueSlotEntry → IssueSlotEntry
fill_slot u slot = record slot {
  valid = true;
  request = true;
  granted = false;
  killed = false;
  uop = u;
  prs1_busy = u.rename.prs1_busy;
  prs2_busy = u.rename.prs2_busy;
  pdst_busy = false;
}

abbrev pub dispatchable : MicroOp → Bool
dispatchable u = u.iq_type == iq_alu || u.iq_type == iq_mem

-- Lines 18 to 28, for a valid renamed operation.
pub dispatch : IssueQueueState → MicroOp → IssueQueueState
dispatch q u = if leb issue_queue_alu_depth q.count || not (dispatchable u) then q else record q {
  entries = set q.entries q.tail (fill_slot u (get_or q.entries q.tail issue_slot_entry_init));
  tail = u8 ((q.tail + 1) % issue_queue_alu_depth);
  count = u8 (q.count + 1);
}

-- The test of line 34.
abbrev pub is_ready : IssueSlotEntry → Bool
is_ready s =
    s.valid && s.request && not s.killed && not s.prs1_busy && not s.prs2_busy && not s.pdst_busy

-- Lines 30 to 38: the first ready slot is granted, since the loop stops at one lane.
pub select : List IssueSlotEntry → List IssueSlotEntry × Option MicroOp
select [] = ([], none)
select (s ∷ ss) =
    let rest = select ss in
    if is_ready s
    then (record s { granted = true; request = false } ∷ ss, some s.uop)
    else (s ∷ rest.0, rest.1)

abbrev pub stays : IssueSlotEntry → Bool
stays s = s.valid && not s.granted

pub waiting : List IssueSlotEntry → List IssueSlotEntry
waiting [] = []
waiting (s ∷ ss) = if stays s then s ∷ waiting ss else waiting ss

-- Lines 40 to 48.
pub compact : IssueQueueState → IssueQueueState
compact q =
    let kept = waiting q.entries in
    record q {
      entries = kept ++ replicate (issue_queue_alu_depth - length kept) issue_slot_entry_init;
      tail = u8 (length kept % issue_queue_alu_depth);
      count = u8 (length kept);
    }

-- Lines 11, 31 to 38: the three issue ports, of which the first alone is fed.
pub issue_ports : Option MicroOp → IssueState → IssueState
issue_ports none iss = record iss {
  issued_uops = replicate issue_width micro_op_init;
  issued_valids = replicate issue_width false;
}
issue_ports (some u) iss = record iss {
  issued_uops = u ∷ replicate (issue_width - 1) micro_op_init;
  issued_valids = true ∷ replicate (issue_width - 1) false;
}

-- Lines 18 to 48, after the flush.
pub schedule : Bool → MicroOp → IssueState → IssueState
schedule valid u iss =
    let q = if valid then dispatch iss.alu_iq u else iss.alu_iq in
    let (granted, chosen) = select q.entries in
    record (issue_ports chosen iss) { alu_iq = compact (record q { entries = granted }) }

unfoldable pub issue_module : BoomCoreState → BoomCoreState
issue_module s =
    if s.global_flush
    then record s {
      issue = record (issue_ports none s.issue) { alu_iq = flush_queue s.issue.alu_iq };
    }
    else record s { issue = schedule s.rename.renamed_valid s.rename.renamed_uop s.issue }
