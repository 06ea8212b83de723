-- ===== src/Rob/Validity.antt =====
-- The flush and the completion of src/boom_core_step.cpp keep the reorder buffer valid, so
-- `rob_commit_module` does.
use boom.Base.{
  ◌≡◌, refl, ap, ◌∙◌, ◌+◌, ◌-◌, ◌%◌, sym, le→ltb, if_either, arith, false, if◌then◌else◌,
  length-map, get_or-map, get_or,
}
use boom.Types.Entries.{RobEntry, rob_entry_init}
use boom.Pipe.{PipeSignals}
use boom.State.{BoomCoreState, RobInternalState, AluResult}
use boom.Rob.{squash, complete, finish_entry, rob_commit_module}
use boom.Rob.Retire.Order.{retire_in_order}
use boom.Rob.Queue.{IsValid, set_entry-IsValid}

abbrev clear : RobEntry → RobEntry
clear e = if e.valid then record e { valid = false; busy = false } else e

clear_invalid : (e : RobEntry) → (clear e).valid ≡ false
clear_invalid e = ground arith

pub squash-IsValid : {rob : RobInternalState} → IsValid rob → IsValid (squash rob)
unfolding squash
squash-IsValid {rob} v = record {
  entries_length = length-map clear rob.entries ∙ v.entries_length;
  head_in = omega arith;
  tail_in = omega arith;
  full_meets = λ e. refl;
  live = λ i hi.
      ap (λ (e : RobEntry). e.valid) (get_or-map clear rob.entries i rob_entry_init)
      ∙ clear_invalid (get_or rob.entries i rob_entry_init)
      ∙ sym (le→ltb ((i + 32 - 0) % 32) 0 (omega arith));
}

finish_entry_valid : (r : AluResult) (e : RobEntry) → (finish_entry r e).valid ≡ e.valid
unfolding finish_entry
finish_entry_valid r e = ground arith

pub complete-IsValid :
    {rob : RobInternalState} (r : AluResult) → IsValid rob → IsValid (complete r rob)
unfolding complete
complete-IsValid {rob} r v =
    if_either IsValid _ (set_entry-IsValid r.uop.queue.rob_idx _ (finish_entry_valid r _) v) v

-- The buffer in which nothing was committed yet.
waiting-IsValid :
    {rob : RobInternalState} → IsValid rob → IsValid (record rob { commit_valid = false })
waiting-IsValid v = record {
  entries_length = v.entries_length;
  head_in = v.head_in;
  tail_in = v.tail_in;
  full_meets = v.full_meets;
  live = v.live;
}

-- The commit stage keeps the buffer valid: on a mispredict, which empties it, and otherwise.
pub rob_commit_module-IsValid :
    (s : BoomCoreState) (p : PipeSignals) → IsValid s.rob → IsValid (rob_commit_module s p).0.rob
unfolding rob_commit_module
rob_commit_module-IsValid s p v =
    if_either (λ (t : BoomCoreState × PipeSignals). IsValid t.0.rob) _
      (squash-IsValid (waiting-IsValid v))
      (retire_in_order _ p (complete-IsValid s.execute.alu_result (waiting-IsValid v))).0
