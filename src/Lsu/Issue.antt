-- ===== src/Lsu/Issue.antt =====
-- src/lsu.cpp, lines 24 to 34, 46 to 70 and 165 to 169: which load goes to memory.
pub mod Ordering
pub mod Progress
use boom.Base.{
  ℕ, zero, suc, ◌+◌, ◌%◌, u8, u32, Bool, true, false, not, ◌&&◌, ◌||◌, ◌==◌, if◌then◌else◌, List,
  get_or, set,
}
use boom.Config.{rob_depth}
use boom.Types.Codes.{dmem_load}
use boom.Types.Entries.{RobEntry, rob_entry_init}
use boom.Types.Messages.{DmemRequest, dmem_request_init}
use boom.Pipe.{PipeSignals, write, full}
use boom.State.{BoomCoreState}

abbrev pub entry_at : BoomCoreState → ℕ → RobEntry
entry_at s i = get_or s.rob.entries i rob_entry_init

abbrev pub set_entry : BoomCoreState → ℕ → RobEntry → BoomCoreState
set_entry s i e = record s { rob = record s.rob { entries = set s.rob.entries i e } }

-- The loop of `older_store_in_rob`, with the rounds that are left and the index.
unfoldable pub store_before : ℕ → List RobEntry → ℕ → ℕ → Bool
store_before zero es rob_idx idx = false
store_before (suc n) es rob_idx idx =
    let rest = store_before n es rob_idx (u8 ((idx + 1) % rob_depth)) in
    if idx == rob_idx then false else if e.valid && e.uop.ctrl.is_sta then true else rest
  where
    e : RobEntry
    e = get_or es idx rob_entry_init

unfoldable pub older_store_in_rob : BoomCoreState → ℕ → Bool
older_store_in_rob s rob_idx = store_before rob_depth s.rob.entries rob_idx s.rob.head

-- The tests of lines 48 and 49.
abbrev pub wants_memory : RobEntry → Bool
wants_memory e = e.valid && e.is_load && e.memory_valid && not e.memory_request_sent

unfoldable pub may_issue : BoomCoreState → PipeSignals → ℕ → Bool
may_issue s p i =
    wants_memory (entry_at s i)
    && not (s.lsu.load_response_pending || older_store_in_rob s i || full p.dmem_req)

-- Lines 51 to 61.
pub load_request : BoomCoreState → ℕ → DmemRequest
load_request s i = record dmem_request_init {
  transaction_id = s.lsu.next_transaction_id;
  rob_idx = i;
  command = dmem_load;
  is_store = false;
  address = e.memory_address;
  size = e.memory_size;
  mask = e.memory_mask;
  signed_load = e.signed_load;
  branch_mask = e.uop.branch.br_mask;
}
  where
    e : RobEntry
    e = entry_at s i

-- The result of `try_issue_load` is read by no caller, and is left out.
unfoldable pub try_issue_load : BoomCoreState → PipeSignals → ℕ → BoomCoreState × PipeSignals
try_issue_load s p i =
    if may_issue s p i
    then (
      record (set_entry s i (record (entry_at s i) {
        memory_request_sent = true;
        memory_transaction_id = s.lsu.next_transaction_id;
      })) {
        lsu = record s.lsu {
          next_transaction_id = u32 (s.lsu.next_transaction_id + 1);
          load_response_pending = true;
          pending_load_transaction_id = s.lsu.next_transaction_id;
          pending_load_rob_idx = i;
        };
      },
      record p { dmem_req = write p.dmem_req (load_request s i) },
    )
    else (s, p)

-- Lines 165 to 169, with the rounds that are left and `i`.
unfoldable pub issue_loads : ℕ → ℕ → BoomCoreState → PipeSignals → BoomCoreState × PipeSignals
issue_loads zero i s p = (s, p)
issue_loads (suc n) i s p =
    let (t, q) = try_issue_load s p (u8 ((s.rob.head + i) % rob_depth)) in
    let rest = issue_loads n (i + 1) t q in if t.lsu.load_response_pending then (t, q) else rest
