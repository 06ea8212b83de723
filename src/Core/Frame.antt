-- ===== src/Core/Frame.antt =====
-- What the stages outside the reorder buffer leave alone: its entries and indices.
use boom.Base.{◌≡◌, refl, arith, List, [], ◌∷◌}
use boom.Pipe.{PipeSignals}
use boom.Types.Uop.{MicroOp}
use boom.State.{BoomCoreState}
use boom.Csr.{csr_module}
use boom.Branch.{branch_module}
use boom.Frontend.{frontend_module, prepare, redirect, leave_reset, note_flush, finish_flush}
use boom.Decode.{decode_module}
use boom.Rename.{rename_module}
use boom.Issue.{issue_module}
use boom.Execute.{execute_module, execute_issued}

pub rob-csr_module : (s : BoomCoreState) → (csr_module s).rob ≡ s.rob
unfolding csr_module
rob-csr_module s = refl

pub rob-branch_module : (s : BoomCoreState) → (branch_module s).rob ≡ s.rob
unfolding branch_module
rob-branch_module s = ground arith

rob-prepare : (s : BoomCoreState) → (prepare s).rob ≡ s.rob
unfolding prepare redirect leave_reset note_flush
rob-prepare s = ground arith

rob-finish_flush : (s : BoomCoreState) → (finish_flush s).rob ≡ s.rob
unfolding finish_flush
rob-finish_flush s = ground arith

pub rob-frontend_module :
    (s : BoomCoreState) (p : PipeSignals) → (frontend_module s p).0.rob ≡ s.rob
unfolding frontend_module
rob-frontend_module s p = ground (arith, rob-prepare s, rob-finish_flush (prepare s))

pub rob-decode_module : (s : BoomCoreState) → (decode_module s).rob ≡ s.rob
unfolding decode_module
rob-decode_module s = ground arith

pub rob-rename_module : (s : BoomCoreState) → (rename_module s).rob ≡ s.rob
unfolding rename_module
rob-rename_module s = ground arith

pub rob-issue_module : (s : BoomCoreState) → (issue_module s).rob ≡ s.rob
unfolding issue_module
rob-issue_module s = ground arith

rob-execute_issued : (us : List MicroOp) (s : BoomCoreState) → (execute_issued us s).rob ≡ s.rob
unfolding execute_issued
rob-execute_issued [] s = refl
rob-execute_issued (u ∷ us) s = refl

pub rob-execute_module : (s : BoomCoreState) → (execute_module s).rob ≡ s.rob
unfolding execute_module
rob-execute_module s = rob-execute_issued _ s
