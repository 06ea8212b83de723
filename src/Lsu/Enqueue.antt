-- ===== src/Lsu/Enqueue.antt =====
-- src/lsu.cpp, lines 72 to 121: an executed load or store enters its entry of the reorder buffer and its
-- queue. A full queue takes nothing.
use boom.Base.{ℕ, ◌+◌, ◌%◌, u8, true, false, ltb, if◌then◌else◌, get_or, set}
use boom.Config.{ldq_depth, stq_depth}
use boom.Types.Entries.{RobEntry}
use boom.State.{BoomCoreState, LsuState, AluResult, store_queue_entry_init, load_queue_entry_init}
use boom.Lsu.Issue.{set_entry, entry_at}

-- Lines 73 to 81.
unfoldable pub store_entry : AluResult → RobEntry → RobEntry
store_entry r e = record e {
  memory_valid = true;
  is_store = true;
  is_load = false;
  memory_completed = true;
  memory_address = r.memory_address;
  memory_data = r.store_data;
  memory_mask = r.memory_mask;
  memory_size = r.memory_size;
  busy = false;
}

-- Lines 83 to 97.
pub push_store : AluResult → LsuState → LsuState
push_store r lsu =
    if ltb lsu.stq_count stq_depth
    then record lsu {
      stq = set lsu.stq lsu.stq_tail (record (get_or lsu.stq lsu.stq_tail store_queue_entry_init) {
        valid = true;
        rob_idx = r.uop.queue.rob_idx;
        address_valid = true;
        address = r.memory_address;
        data_valid = true;
        data_ = r.store_data;
        mask = r.memory_mask;
        size = r.memory_size;
        branch_mask = r.uop.branch.br_mask;
      });
      stq_tail = u8 ((lsu.stq_tail + 1) % stq_depth);
      stq_count = u8 (lsu.stq_count + 1);
    }
    else lsu

unfoldable pub enqueue_store : BoomCoreState → AluResult → ℕ → BoomCoreState
enqueue_store s r i = record (set_entry s i (store_entry r (entry_at s i))) {
  lsu = push_store r s.lsu;
}

-- Lines 101 to 107.
unfoldable pub load_entry : AluResult → RobEntry → RobEntry
load_entry r e = record e {
  memory_valid = true;
  is_load = true;
  is_store = false;
  signed_load = r.signed_load;
  memory_address = r.memory_address;
  memory_mask = r.memory_mask;
  memory_size = r.memory_size;
}

-- Lines 109 to 120.
pub push_load : AluResult → LsuState → LsuState
push_load r lsu =
    if ltb lsu.ldq_count ldq_depth
    then record lsu {
      ldq = set lsu.ldq lsu.ldq_tail (record (get_or lsu.ldq lsu.ldq_tail load_queue_entry_init) {
        valid = true;
        rob_idx = r.uop.queue.rob_idx;
        address = r.memory_address;
        size = r.memory_size;
        signed_load = r.signed_load;
        branch_mask = r.uop.branch.br_mask;
      });
      ldq_tail = u8 ((lsu.ldq_tail + 1) % ldq_depth);
      ldq_count = u8 (lsu.ldq_count + 1);
    }
    else lsu

unfoldable pub enqueue_load : BoomCoreState → AluResult → ℕ → BoomCoreState
enqueue_load s r i = record (set_entry s i (load_entry r (entry_at s i))) {
  lsu = push_load r s.lsu;
}
