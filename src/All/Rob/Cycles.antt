-- ===== src/All/Rob/Cycles.antt =====
-- Calls of `rob_module` in src/boom_all.cpp, one for a cycle.
use boom.Base.{ℕ, ◌≡◌, ap, false, List, [], ◌∷◌}
use boom.Types.Codes.{RobState, rob_normal}
use boom.Types.Entries.{BranchUpdate}
use boom.State.{RenameState, AluResult}
use boom.All.Rob.{RobModuleState, work, by_state, rob_module}

-- What one cycle hands to the buffer.
pub record Inputs : Type 0 where
  pub result : AluResult
  pub brupdate : BranchUpdate
  pub rename : RenameState

abbrev pub with_table : RenameState → List ℕ → RenameState
with_table r table = record r {
  int_map_table = record r.int_map_table { committed_map_table = table };
}

-- One cycle, and cycles in turn. The table of committed registers goes from one to the next; the rest
-- of the rename state is whatever the renamer makes of it.
unfoldable pub cycle : Inputs → RobModuleState → List ℕ → RobModuleState × List ℕ
cycle i s table =
    let (t, r) = rob_module s i.result i.brupdate (with_table i.rename table) in
    (t, r.int_map_table.committed_map_table)

unfoldable pub cycles : List Inputs → RobModuleState → List ℕ → RobModuleState × List ℕ
cycles [] s table = (s, table)
cycles (i ∷ is) s table = let (t, after) = cycle i s table in cycles is t after

pub module_works :
    (s : RobModuleState) (r : AluResult) (b : BranchUpdate) (n : RenameState)
    → s.rob.state ≡ rob_normal
    → rob_module s r b n ≡ work (record s { flush_frontend = false }) r b n
unfolding rob_module by_state
module_works s r b n normal =
    ap (λ (x : RobState). by_state x (record s { flush_frontend = false }) r b n) normal
