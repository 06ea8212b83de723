-- ===== src/All/Branch.antt =====
-- `branch_module` of src/boom_all.cpp: the branch update from the results of one cycle. A later result
-- overwrites an earlier one.
use boom.Base.{◌+◌, ◌-◌, ◌^◌, u64, Bool, true, ◌&&◌, ◌||◌, if◌then◌else◌, List, [], ◌∷◌}
use boom.Types.Uop.{MicroOp}
use boom.Types.Entries.{BranchUpdate, branch_update_init}
use boom.State.{AluResult}

abbrev pub is_control : MicroOp → Bool
is_control u = u.branch.is_br || u.branch.is_jal || u.branch.is_jalr

-- Lines 1658 to 1678.
pub note_result : AluResult → BranchUpdate → BranchUpdate
note_result r b =
    if r.valid && is_control r.uop
    then (if r.mispredict
        then record b {
          valid = true;
          uop = r.uop;
          mispredict = true;
          taken = true;
          jalr_target = r.redirect_pc;
          br_tag = r.uop.branch.br_tag;
          mispredict_mask = r.uop.branch.br_mask;
          resolve_mask = r.uop.branch.br_mask;
          target_offset = u64 (r.redirect_pc + 2 ^ 64 - r.uop.debug_pc);
        }
        else record b { valid = true; uop = r.uop })
    else b

pub note_results : List AluResult → BranchUpdate → BranchUpdate
note_results [] b = b
note_results (r ∷ rs) b = note_results rs (note_result r b)

pub branch_module : List AluResult → BranchUpdate
branch_module rs = note_results rs branch_update_init
