-- ===== src/Tests/Rob.antt =====
-- The reorder buffer on small concrete buffers.
use boom.Base.{
  ◌+◌, ◌-◌, ◌%◌, ◌≡◌, refl, ap, sym, ◌∙◌, arith, u64, true, false, [], ◌∷◌, ◌++◌, replicate,
  length-replicate, get_or-replicate_in, lt→ltb, if◌then◌else◌,
}
use boom.Types.Uop.{MicroOp, micro_op_init}
use boom.Types.Entries.{RobEntry, rob_entry_init}
use boom.Pipe.{pipe_signals_init}
use boom.State.{
  BoomCoreState, boom_core_state_init, RobInternalState, rob_internal_state_init, AluResult,
  alu_result_init,
}
use boom.Rob.{push, complete, rob_allocate}
use boom.Rob.Queue.{IsValid, contents, pushed, push-IsValid}
use boom.Rob.Allocation.{accepts, rob_allocate_refines}
use boom.Rob.Retire.{retire, head_entry}
use boom.Rob.Retire.Progress.{retire_commits}
use boom.Rob.Retire.Order.{Retired, retire_in_order}
use boom.Rob.Validity.{complete-IsValid}
use boom.Top.Buffer.{init-IsValid}

-- `addi a0, x0, 5`, renamed to register 1.
abbrev addi : MicroOp
addi = record micro_op_init {
  uopc = 50;
  debug_pc = 0x80000000;
  rename = record micro_op_init.rename { ldst = 10; pdst = 1 };
}

abbrev renamed : RobInternalState → BoomCoreState
renamed rob = record boom_core_state_init {
  rob = rob;
  rename = record boom_core_state_init.rename { renamed_uop = addi; renamed_valid = true };
}

rob_allocate_refines_example :
    let s = renamed rob_internal_state_init in
    IsValid (rob_allocate s).rob
    × (contents (rob_allocate s).rob ≡ (
        if accepts s
        then contents s.rob ++ pushed s.rob s.rename.renamed_uop ∷ []
        else contents s.rob))
rob_allocate_refines_example = rob_allocate_refines (renamed rob_internal_state_init) init-IsValid

-- One entry, and its result.
abbrev one_entry : RobInternalState
one_entry = push rob_internal_state_init addi

abbrev result_5 : AluResult
result_5 = record alu_result_init { valid = true; uop = addi; result = 5 }

abbrev ready : BoomCoreState
ready = record boom_core_state_init { rob = complete result_5 one_entry }

retire_in_order_example :
    IsValid (retire ready pipe_signals_init).0.rob
    × Retired ready (retire ready pipe_signals_init).0
retire_in_order_example =
    retire_in_order ready pipe_signals_init
      (complete-IsValid result_5 (push-IsValid addi init-IsValid refl))

-- A buffer of 32 operations, with the oldest at index 5.
abbrev waiting_addi : RobEntry
waiting_addi = record rob_entry_init { valid = true; busy = true; uop = addi }

abbrev full_of : RobEntry → RobInternalState
full_of e = record rob_internal_state_init {
  entries = replicate 32 e;
  head = 5;
  tail = 5;
  maybe_full = true;
}

full_of-IsValid : (e : RobEntry) → e.valid ≡ true → IsValid (full_of e)
full_of-IsValid e valid = record {
  entries_length = length-replicate 32 e;
  head_in = omega arith;
  tail_in = omega arith;
  full_meets = λ h. refl;
  live = λ i hi.
      ap (λ (x : RobEntry). x.valid) (get_or-replicate_in 32 i e rob_entry_init hi)
      ∙ valid
      ∙ sym (lt→ltb ((i + 32 - 5) % 32) 32 (omega arith));
}

-- The same buffer with every operation executed.
abbrev done_addi : RobEntry
done_addi = record waiting_addi { busy = false }

abbrev done : BoomCoreState
done = record boom_core_state_init { rob = full_of done_addi }

retire_commits_example :
    (contents done.rob ≡ head_entry done.rob ∷ contents (retire done pipe_signals_init).0.rob)
    × ((retire done pipe_signals_init).0.csr.instret ≡ u64 (0 + 1))
    × ((retire done pipe_signals_init).0.rob.commit_valid ≡ true)
retire_commits_example =
    retire_commits done pipe_signals_init (full_of-IsValid done_addi refl) refl refl refl refl
