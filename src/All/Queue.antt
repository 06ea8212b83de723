-- ===== src/All/Queue.antt =====
-- The issue queue of src/boom_all.cpp, lines 1062 to 1155. The compaction is the loop of src/issue.cpp,
-- which also resets the head here.
pub mod Fifo
pub mod Choice
use boom.Base.{
  ℕ, ◌+◌, ◌-◌, ◌%◌, bit_and, u8, Bool, true, false, not, ◌&&◌, ◌||◌, ◌==◌, ◌!=◌, leb, if◌then◌else◌,
  List, [], ◌∷◌, ◌++◌, map, length, replicate, get_or, set, Option, none, some,
}
use boom.Config.{issue_queue_mem_depth}
use boom.Types.Uop.{MicroOp}
use boom.Types.Entries.{IssueSlotEntry, issue_slot_entry_init}
use boom.State.{IssueQueueState}
use boom.Issue.{waiting}

-- The slot that dispatch writes: every field is set.
abbrev pub slot_of : MicroOp → IssueSlotEntry
slot_of u = record {
  valid = true;
  request = true;
  granted = false;
  killed = false;
  pdst_busy = u.rename.ppred_busy;
  prs1_busy = u.rename.prs1_busy;
  prs2_busy = u.rename.prs2_busy;
  prs3_busy = u.rename.prs3_busy;
  uop = u;
  prs1_data = 0;
  prs2_data = 0;
  prs3_data = 0;
}

pub iq_enqueue : IssueQueueState → MicroOp → IssueQueueState
iq_enqueue iq u = if leb issue_queue_mem_depth iq.count then iq else record iq {
  entries = set iq.entries iq.tail (slot_of u);
  tail = u8 ((iq.tail + 1) % issue_queue_mem_depth);
  count = u8 (iq.count + 1);
}

pub iq_wakeup : IssueQueueState → ℕ → IssueQueueState
iq_wakeup iq pdst = record iq { entries = map wake iq.entries }
  where
    wake : IssueSlotEntry → IssueSlotEntry
    wake e =
        if e.valid
        then record e {
          prs1_busy = if e.uop.rename.prs1 == pdst then false else e.prs1_busy;
          prs2_busy = if e.uop.rename.prs2 == pdst then false else e.prs2_busy;
          prs3_busy = if e.uop.rename.prs3 == pdst then false else e.prs3_busy;
        }
        else e

abbrev pub iq_is_ready : IssueSlotEntry → Bool
iq_is_ready e =
    if not e.valid || not e.request || e.killed
    then false
    else not e.prs1_busy && not e.prs2_busy && not e.prs3_busy && not e.pdst_busy

-- The loop of `iq_select` from index `i` on; `none` is its -1.
pub select_from : List IssueSlotEntry → ℕ → Option ℕ
select_from [] i = none
select_from (e ∷ es) i = let rest = select_from es (i + 1) in if iq_is_ready e then some i else rest

pub iq_select : IssueQueueState → Option ℕ
iq_select iq = select_from iq.entries 0

pub iq_grant : IssueQueueState → Option ℕ → IssueQueueState
iq_grant iq none = iq
iq_grant iq (some i) = if leb issue_queue_mem_depth i then iq else record iq {
  entries =
      set iq.entries i
        (record (get_or iq.entries i issue_slot_entry_init) { granted = true; request = false });
}

pub iq_compress : IssueQueueState → IssueQueueState
iq_compress iq =
    let kept = waiting iq.entries in
    record iq {
      entries = kept ++ replicate (issue_queue_mem_depth - length kept) issue_slot_entry_init;
      head = 0;
      tail = u8 (length kept % issue_queue_mem_depth);
      count = u8 (length kept);
    }

pub iq_kill_by_mask : IssueQueueState → ℕ → IssueQueueState
iq_kill_by_mask iq br_mask = record iq { entries = map kill iq.entries }
  where
    kill : IssueSlotEntry → IssueSlotEntry
    kill e =
        if e.valid && bit_and e.uop.branch.br_mask br_mask != 0
        then record e { killed = true }
        else e

pub iq_flush : IssueQueueState → IssueQueueState
iq_flush iq = record iq { entries = map clear iq.entries; head = 0; tail = 0; count = 0 }
  where
    clear : IssueSlotEntry → IssueSlotEntry
    clear e = record e { valid = false; killed = false; granted = false; request = false }

-- The queue, and whether it took the operation.
pub iq_dispatch : IssueQueueState → ℕ → MicroOp → IssueQueueState × Bool
iq_dispatch iq type u =
    if u.iq_type != type
    then (iq, false)
    else if leb issue_queue_mem_depth iq.count
    then (iq, false)
    else (iq_enqueue iq u, true)
