-- ===== src/Rob.antt =====
-- src/boom_core_step.cpp, lines 18 to 127: the reorder buffer. `rob_allocate` appends the renamed
-- operation, `rob_commit_module` completes and retires from the head. The retirement is in Rob/Retire.
pub mod Retire
pub mod Queue
pub mod Allocation
pub mod Validity
use boom.Base.{
  ℕ, ◌+◌, ◌%◌, u8, Bool, true, false, not, ◌&&◌, ◌||◌, ◌==◌, ltb, if◌then◌else◌, List, map, get_or,
  set,
}
use boom.Config.{rob_depth}
use boom.Types.Codes.{RobState, rob_init, rob_normal}
use boom.Types.Uop.{MicroOp}
use boom.Types.Entries.{RobEntry, rob_entry_init}
use boom.Pipe.{PipeSignals}
use boom.State.{BoomCoreState, RobInternalState, AluResult}
use Retire.{retire}

abbrev pub leave_init : RobState → RobState
leave_init rob_init = rob_normal
leave_init s = s

abbrev pub is_full : RobInternalState → Bool
is_full rob = rob.head == rob.tail && rob.maybe_full

-- The operation as the buffer holds it: it knows its own index.
abbrev pub with_rob_idx : MicroOp → ℕ → MicroOp
with_rob_idx u i = record u { queue = record u.queue { rob_idx = i } }

-- Lines 28 to 34.
pub push : RobInternalState → MicroOp → RobInternalState
push rob u = record rob {
  entries = set rob.entries rob.tail (record rob_entry_init {
    valid = true;
    busy = true;
    exception = u.exception;
    uop = with_rob_idx u rob.tail;
  });
  tail = u8 ((rob.tail + 1) % rob_depth);
  maybe_full = if u8 ((rob.tail + 1) % rob_depth) == rob.head then true else rob.maybe_full;
}

unfoldable pub rob_allocate : BoomCoreState → BoomCoreState
rob_allocate s =
    if s.global_flush || not s.rename.renamed_valid
    then started
    else if is_full s.rob
    then record started { rename = record s.rename { renamed_valid = false } }
    else if s.rename.renamed_uop.uopc == 0
    then started
    else record started {
      rob = push started.rob s.rename.renamed_uop;
      rename = record s.rename { renamed_uop = with_rob_idx s.rename.renamed_uop s.rob.tail };
    }
  where
    started : BoomCoreState
    started = record s { rob = record s.rob { state = leave_init s.rob.state } }

-- Lines 42 to 48: a mispredict empties the whole buffer.
unfoldable pub squash : RobInternalState → RobInternalState
squash rob = record rob {
  entries =
      map (λ (e : RobEntry). if e.valid then record e { valid = false; busy = false } else e)
        rob.entries;
  head = 0;
  tail = 0;
  maybe_full = false;
  state = rob_normal;
}

-- Lines 53 to 57: the entry of an executed operation is no longer busy.
pub finish_entry : AluResult → RobEntry → RobEntry
finish_entry r e =
    if e.valid
    then record e { busy = false; exception = if r.exception then true else e.exception }
    else e

-- The test of line 52: memory operations complete elsewhere.
abbrev pub is_memory : AluResult → Bool
is_memory r = r.memory_valid || r.is_load || r.is_store || r.uop.ctrl.is_load || r.uop.ctrl.is_sta

-- Lines 49 to 58.
unfoldable pub complete : AluResult → RobInternalState → RobInternalState
complete r rob =
    if r.valid && not (is_memory r) && ltb r.uop.queue.rob_idx rob_depth
    then record rob {
      entries =
          set rob.entries r.uop.queue.rob_idx
            (finish_entry r (get_or rob.entries r.uop.queue.rob_idx rob_entry_init));
    }
    else rob

unfoldable pub rob_commit_module : BoomCoreState → PipeSignals → BoomCoreState × PipeSignals
rob_commit_module s p =
    if s.brupdate.valid && s.brupdate.mispredict
    then (record s { rob = squash waiting; global_flush = true }, p)
    else retire (record s { rob = complete s.execute.alu_result waiting }) p
  where
    waiting : RobInternalState
    waiting = record s.rob { commit_valid = false }
