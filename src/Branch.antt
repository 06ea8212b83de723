-- ===== src/Branch.antt =====
-- src/branch.cpp: the branch that was executed in the cycle before becomes the branch update.
use boom.Base.{Bool, true, ◌&&◌, ◌||◌, if◌then◌else◌}
use boom.State.{BoomCoreState, AluResult}

-- The test of line 11: the result redirects the fetch.
abbrev pub redirects : AluResult → Bool
redirects r = r.mispredict && (r.uop.branch.is_br || r.uop.branch.is_jal || r.uop.branch.is_jalr)

unfoldable pub branch_module : BoomCoreState → BoomCoreState
branch_module s =
    if r.valid && redirects r
    then record s {
      brupdate = record s.brupdate {
        valid = true;
        mispredict = true;
        jalr_target = r.redirect_pc;
        mispredict_mask = 1;
      };
    }
    else s
  where
    r : AluResult
    r = s.execute.alu_result
