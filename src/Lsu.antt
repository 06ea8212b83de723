-- ===== src/Lsu.antt =====
-- src/lsu.cpp: the load and store unit. Loads go out one at a time, and never past an older store; a
-- store goes to memory when the reorder buffer retires it. The enqueueing is in Lsu/Enqueue, the values
-- in Lsu/Value.
pub mod Value
pub mod Enqueue
pub mod Issue
pub mod Validity
pub mod RoundTrip
use boom.Base.{
  ℕ, zero, suc, ◌+◌, ◌%◌, u8, Bool, true, false, not, ◌&&◌, ◌||◌, ◌==◌, ◌!=◌, ltb, if◌then◌else◌,
  List, [], ◌∷◌, get_or, set, replicate,
}
use boom.Config.{rob_depth, ldq_depth, stq_depth}
use boom.Types.Entries.{RobEntry, rob_entry_init}
use boom.Types.Messages.{DmemResponse}
use boom.Pipe.{PipeSignals}
use boom.State.{BoomCoreState, LsuState, AluResult, load_queue_entry_init, store_queue_entry_init}
use Value.{load_value}
use Enqueue.{enqueue_store, enqueue_load}
use Issue.{set_entry, entry_at, issue_loads}

pub clear_lsu_queues : LsuState → LsuState
clear_lsu_queues lsu = record lsu {
  ldq_head = 0;
  ldq_tail = 0;
  ldq_count = 0;
  stq_head = 0;
  stq_tail = 0;
  stq_count = 0;
  load_response_pending = false;
  pending_load_transaction_id = 0;
  pending_load_rob_idx = 0;
  ldq = replicate ldq_depth load_queue_entry_init;
  stq = replicate stq_depth store_queue_entry_init;
}

-- Lines 139 to 143: what the response says, or the other field where the first is zero.
abbrev pub nonzero_or : ℕ → ℕ → ℕ
nonzero_or a b = if a != 0 then a else b

abbrev pub response_value : DmemResponse → RobEntry → ℕ
response_value resp e =
    load_value (nonzero_or resp.read_data resp.data_) e.memory_address e.memory_size e.signed_load

-- Lines 136 to 147: the entry that waited for the response.
pub finish_load : DmemResponse → RobEntry → RobEntry
finish_load resp e =
    if resp.exception
    then record e {
      exception = true;
      uop = record e.uop {
        exception = true;
        exc_cause = nonzero_or resp.exception_cause resp.exc_cause;
      };
      memory_completed = true;
      busy = false;
    }
    else record e { memory_data = response_value resp e; memory_completed = true; busy = false }

-- The register file after it.
pub write_load : DmemResponse → RobEntry → List ℕ → List ℕ
write_load resp e rf =
    if not resp.exception && e.uop.rename.pdst != 0
    then set rf e.uop.rename.pdst (response_value resp e)
    else rf

abbrev pub awaited : RobEntry → Bool
awaited e = e.valid && e.is_load && e.memory_request_sent

-- Lines 132 to 150.
pub accept_response : DmemResponse → BoomCoreState → BoomCoreState
accept_response resp s =
    if s.lsu.load_response_pending && resp.transaction_id == s.lsu.pending_load_transaction_id
    then if awaited e
      then record (set_entry s s.lsu.pending_load_rob_idx (finish_load resp e)) {
        int_rf = write_load resp e s.int_rf;
        lsu = done;
      }
      else record s { lsu = done }
    else s
  where
    e : RobEntry
    e = entry_at s s.lsu.pending_load_rob_idx

    done : LsuState
    done = record s.lsu { load_response_pending = false; pending_load_transaction_id = 0 }

-- Lines 129 to 152.
unfoldable pub read_response : BoomCoreState → List DmemResponse → BoomCoreState × List DmemResponse
read_response s [] = (s, [])
read_response s (resp ∷ q) = (accept_response resp s, q)

-- Lines 154 to 163: the operation that was executed in the cycle before.
pub enqueue : BoomCoreState → BoomCoreState
enqueue s =
    if r.valid && r.memory_valid && ltb i rob_depth && (entry_at s i).valid
    then if r.is_store then enqueue_store s r i else if r.is_load then enqueue_load s r i else s
    else s
  where
    r : AluResult
    r = s.execute.alu_result

    i : ℕ
    i = r.uop.queue.rob_idx

unfoldable pub lsu_module : BoomCoreState → PipeSignals → BoomCoreState × PipeSignals
lsu_module s p =
    if s.global_flush
    then (record s { lsu = clear_lsu_queues s.lsu }, p)
    else let (t, resp) = read_response s p.dmem_resp in
      issue_loads rob_depth 0 (enqueue t) (record p { dmem_resp = resp })
