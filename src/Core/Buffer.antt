-- ===== src/Core/Buffer.antt =====
-- The reorder buffer over whole cycles of src/boom_core_step.cpp and src/boom_core_top.cpp.
use boom.Base.{◌≡◌, sym, subst}
use boom.Pipe.{PipeSignals}
use boom.State.{BoomCoreState, RobInternalState}
use boom.Lsu.Validity.{lsu_module-IsValid}
use boom.Rob.Queue.{IsValid}
use boom.Rob.Allocation.{rob_allocate_refines}
use boom.Rob.Validity.{rob_commit_module-IsValid}
use boom.Core.{boom_core_step, begin_cycle, middle}
use boom.Core.Frame.{
  rob-csr_module, rob-branch_module, rob-frontend_module, rob-decode_module, rob-rename_module,
  rob-issue_module, rob-execute_module,
}

-- Validity goes over to a state with the same buffer.
move : {a b : RobInternalState} → a ≡ b → IsValid b → IsValid a
move e v = subst IsValid (sym e) v

middle-IsValid : (s : BoomCoreState) → IsValid s.rob → IsValid (middle s).rob
unfolding middle
middle-IsValid s v = move (rob-execute_module _) (
    move (rob-issue_module _)
      (rob_allocate_refines _ (move (rob-rename_module _) (move (rob-decode_module s) v))).0)

-- Every cycle, whatever arrives on the streams, keeps the reorder buffer valid: the head and the tail
-- stay in range and exactly the entries between them are valid.
pub boom_core_step-IsValid :
    (s : BoomCoreState) (p : PipeSignals) → IsValid s.rob → IsValid (boom_core_step s p).0.rob
unfolding boom_core_step begin_cycle
boom_core_step-IsValid s p v = rob_commit_module-IsValid _ _ (
    middle-IsValid _ (
      move (rob-frontend_module _ _) (
        lsu_module-IsValid _ _
          (move (rob-branch_module _) (move (rob-csr_module (begin_cycle s)) v)))))
