-- ===== src/Core.antt =====
-- src/boom_core_step.cpp, lines 131 to 149: one cycle. Each module sees what the ones before it did.
pub mod Frame
pub mod Buffer
pub mod Counting
use boom.Base.{false}
use boom.Pipe.{PipeSignals}
use boom.State.{BoomCoreState}
use boom.Csr.{csr_module}
use boom.Branch.{branch_module}
use boom.Lsu.{lsu_module}
use boom.Frontend.{frontend_module}
use boom.Decode.{decode_module}
use boom.Rename.{rename_module}
use boom.Rob.{rob_allocate, rob_commit_module}
use boom.Issue.{issue_module}
use boom.Execute.{execute_module}

-- Lines 132 to 135.
unfoldable pub begin_cycle : BoomCoreState → BoomCoreState
begin_cycle s = record s {
  global_flush = false;
  io_success = false;
  io_trap = false;
  brupdate = record s.brupdate { valid = false; mispredict = false };
}

-- Lines 141 to 145: the stages that do not touch a stream.
unfoldable pub middle : BoomCoreState → BoomCoreState
middle s = execute_module (issue_module (rob_allocate (rename_module (decode_module s))))

unfoldable pub boom_core_step : BoomCoreState → PipeSignals → BoomCoreState × PipeSignals
boom_core_step s p =
    let (s1, p1) = lsu_module (branch_module (csr_module (begin_cycle s))) p in
    let (s2, p2) = frontend_module s1 p1 in rob_commit_module (middle s2) p2
