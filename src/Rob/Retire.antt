-- ===== src/Rob/Retire.antt =====
-- src/boom_core_step.cpp, lines 59 to 126: what happens to the oldest entry of the reorder buffer.
pub mod Order
pub mod Progress
use boom.Base.{
  ℕ, ◌+◌, ◌%◌, u8, u32, u64, Bool, true, false, not, ◌&&◌, ◌||◌, ◌==◌, ◌!=◌, ltb, if◌then◌else◌,
  get_or, set,
}
use boom.Config.{rob_depth, int_phys_regs}
use boom.Types.Codes.{rob_exception, dmem_store, dst_int}
use boom.Types.Entries.{RobEntry, rob_entry_init, CommitEntry, commit_entry_init}
use boom.Types.Messages.{DmemRequest, dmem_request_init}
use boom.Pipe.{PipeSignals, write, full}
use boom.State.{BoomCoreState, RobInternalState, RenameState, RenameFreeListState, AluResult}

abbrev pub is_empty : RobInternalState → Bool
is_empty rob = rob.head == rob.tail && not rob.maybe_full

abbrev pub head_entry : RobInternalState → RobEntry
head_entry rob = get_or rob.entries rob.head rob_entry_init

abbrev set_head : RobInternalState → RobEntry → RobInternalState
set_head rob e = record rob { entries = set rob.entries rob.head e }

-- Lines 69 and 124: the head leaves the buffer.
unfoldable pub pop : RobInternalState → RobInternalState
pop rob = record (set_head rob (record (head_entry rob) { valid = false })) {
  head = u8 ((rob.head + 1) % rob_depth);
  maybe_full = false;
}

-- Lines 65 and 66: the value of a0 through the speculative map.
pub a0_val : BoomCoreState → ℕ
a0_val s =
    let a0_pdst = get_or s.rename.int_map_table.map_table 10 0 in
    if a0_pdst != 0 then get_or s.int_rf a0_pdst 0 else 0

-- Lines 64 to 70: `ecall` (code 65) ends the program; any other exception stops the core.
unfoldable pub retire_exception : BoomCoreState → BoomCoreState
retire_exception s =
    if (head_entry s.rob).uop.uopc == 65
    then if a0_val s == 0
      then record s { rob = pop s.rob; io_success = true }
      else record s { rob = pop s.rob; io_trap = true }
    else record s { rob = record s.rob { state = rob_exception }; io_trap = true }

-- Lines 77 to 90.
pub store_request : BoomCoreState → DmemRequest
store_request s = record dmem_request_init {
  transaction_id = s.lsu.next_transaction_id;
  rob_idx = he.uop.queue.rob_idx;
  command = dmem_store;
  is_store = true;
  committed = true;
  address = he.memory_address;
  data_ = he.memory_data;
  write_data = he.memory_data;
  size = he.memory_size;
  mask = he.memory_mask;
  write_mask = he.memory_mask;
  branch_mask = he.uop.branch.br_mask;
}
  where
    he : RobEntry
    he = head_entry s.rob

-- Lines 91 to 93, with the transaction number that line 78 takes.
unfoldable pub note_store : BoomCoreState → BoomCoreState
note_store s = record s {
  lsu = record s.lsu { next_transaction_id = u32 (s.lsu.next_transaction_id + 1) };
  rob =
      set_head s.rob
        (record (head_entry s.rob) { memory_request_sent = true; memory_completed = true });
  tohost = (head_entry s.rob).memory_data;
}

-- Lines 97 to 110.
pub commit_record : BoomCoreState → CommitEntry
commit_record s = record commit_entry_init {
  valid = true;
  pc = he.uop.debug_pc;
  inst = he.uop.inst;
  rd_valid = rd_valid;
  rd = he.uop.rename.ldst;
  priv = s.csr.priv;
  exception = false;
  branch_mispredict = false;
  rd_value = if rd_valid then get_or s.int_rf he.uop.rename.pdst 0 else 0;
  memory_valid = he.memory_valid;
  is_store = he.is_store;
  memory_address = he.memory_address;
  memory_data = he.memory_data;
  memory_mask = he.memory_mask;
  store_addr = he.memory_address;
  store_data = he.memory_data;
  store_mask = he.memory_mask;
}
  where
    he : RobEntry
    he = head_entry s.rob

    rd_valid : Bool
    rd_valid = he.uop.rename.dst_rtype == dst_int && he.uop.rename.pdst != 0

-- Lines 116 to 118.
unfoldable pub release : RenameFreeListState → ℕ → RenameFreeListState
release fl p =
    if ltb fl.count int_phys_regs
    then record fl {
      busy_table = set fl.busy_table p false;
      free_list = set fl.free_list fl.tail p;
      tail = u8 ((fl.tail + 1) % int_phys_regs);
      count = u8 (fl.count + 1);
    }
    else fl

-- Lines 111 to 121: the new mapping is committed and the old register is free again.
pub commit_map : RobEntry → RenameState → RenameState
commit_map he ren =
    if he.uop.rename.pdst != 0
    then record ren {
      int_map_table = record ren.int_map_table {
        committed_map_table =
            set ren.int_map_table.committed_map_table he.uop.rename.ldst he.uop.rename.pdst;
      };
      int_free_list =
          if he.uop.rename.stale_pdst != 0 && ltb he.uop.rename.stale_pdst int_phys_regs
          then release ren.int_free_list he.uop.rename.stale_pdst
          else ren.int_free_list;
    }
    else ren

-- Lines 96 to 124.
unfoldable pub commit : BoomCoreState → PipeSignals → BoomCoreState × PipeSignals
commit s p = (
  record s {
    csr = record s.csr { instret = u64 (s.csr.instret + 1) };
    rename = commit_map (head_entry s.rob) s.rename;
    rob = record (pop s.rob) { last_commit = commit_record s; commit_valid = true };
  },
  if full p.commit_trace
      then p
      else record p { commit_trace = write p.commit_trace (commit_record s) },
)

-- The tests of lines 72 and 73.
abbrev pub awaits_load : RobEntry → Bool
awaits_load he = (he.uop.ctrl.is_load || he.is_load) && not he.memory_completed

abbrev pub stores : RobEntry → Bool
stores he = he.uop.ctrl.is_sta || he.is_store

-- Lines 72 to 124.
unfoldable pub retire_normal : BoomCoreState → PipeSignals → BoomCoreState × PipeSignals
retire_normal s p =
    if awaits_load he
    then (s, p)
    else if stores he
    then if not he.memory_valid
      then (s, p)
      else if not he.memory_request_sent
      then if full p.dmem_req
        then (s, p)
        else commit (note_store s) (record p { dmem_req = write p.dmem_req (store_request s) })
      else commit s p
    else commit s p
  where
    he : RobEntry
    he = head_entry s.rob

-- Lines 59 to 126.
unfoldable pub retire : BoomCoreState → PipeSignals → BoomCoreState × PipeSignals
retire s p =
    if not (is_empty s.rob) && he.valid && not he.busy
    then if he.exception then (retire_exception s, p) else retire_normal s p
    else (s, p)
  where
    he : RobEntry
    he = head_entry s.rob
