-- ===== src/All/Execute.antt =====
-- `execute_module` of src/boom_all.cpp, lines 1567 to 1645. DISPATCH_WIDTH is 1: `alu_results` has the
-- lane 0 alone, which is `alu_result`. The issued operations are those of All/Issue, valid lanes first.
pub mod Lost
use boom.Base.{
  ℕ, ◌+◌, ◌-◌, u64, sext_32_64, Bool, true, false, not, ◌&&◌, ◌||◌, ◌==◌, ltb, if◌then◌else◌, List,
  [], ◌∷◌, get_or, set,
}
use boom.Types.Codes.{fu_csr, fu_mem}
use boom.Types.Uop.{MicroOp}
use boom.State.{AluResult, alu_result_init}
use boom.Decode.Uopc
use boom.All.Issue.{iq_fpu}
use boom.All.Divider.{DividerState, DividerStep, execute_divider_step}
use boom.All.Alu.{AluStep, execute_alu_unit, is_division}

pub record ExecuteModuleState : Type 0 where
  pub alu_result : AluResult
  pub fp_issued_valids : List Bool
  pub fp_issued_uops : List MicroOp
  pub fp_busy : Bool

-- What the loop over the issued operations changes: the module's state, the file's divider and the
-- locals `div_busy` and `result_idx`.
pub record Lanes : Type 0 where
  pub next : ExecuteModuleState
  pub div_state : DividerState
  pub div_busy : Bool
  pub result_idx : ℕ

abbrev pub with_result : Lanes → AluResult → Lanes
with_result l r = record l {
  next = record l.next { alu_result = r };
  result_idx = l.result_idx + 1;
}

-- Lines 1584 to 1591.
abbrev pub illegal_result : AluResult → MicroOp → AluResult
illegal_result r u = record r { valid = true; uop = u; exception = true; exc_cause = u.exc_cause }

-- Lines 1604 to 1619: the result keeps its `exception`, `mispredict` and the rest.
abbrev pub plain_result : AluResult → MicroOp → ℕ → AluResult
plain_result r u value = record r { valid = true; uop = u; result = value }

-- Lines 1593 to 1598.
abbrev pub pass_fpu : Lanes → ℕ → MicroOp → Lanes
pass_fpu l i u = record l {
  next = record l.next {
    fp_issued_valids = set l.next.fp_issued_valids i true;
    fp_issued_uops = set l.next.fp_issued_uops i u;
  };
}

-- Lines 1621 to 1631: a division that is at work leaves the lane free.
abbrev pub use_unit : Lanes → MicroOp → ℕ → ℕ → Lanes
use_unit l u rs1 rs2 =
    let t = execute_alu_unit l.next.alu_result u rs1 rs2 u.debug_pc l.div_busy l.div_state in
    record {
      next = record l.next { alu_result = t.result };
      div_state = t.div_state;
      div_busy = t.div_busy;
      result_idx =
          if (if is_division u.uopc then not t.div_busy else t.result.valid)
          then l.result_idx + 1
          else l.result_idx;
    }

unfoldable pub execute_lane : List ℕ → ℕ → MicroOp → Lanes → Lanes
execute_lane int_rf i u l =
    let rs1 = get_or int_rf u.rename.prs1 0 in
    if u.uopc == Uopc.illegal
    then with_result l (illegal_result l.next.alu_result u)
    else if u.iq_type == iq_fpu
    then pass_fpu l i u
    else if u.fu_code == fu_csr
    then with_result l (plain_result l.next.alu_result u 0)
    else if u.fu_code == fu_mem
    then with_result l (plain_result l.next.alu_result u (u64 (rs1 + sext_32_64 u.imm_packed)))
    else use_unit l u rs1 (get_or int_rf u.rename.prs2 0)

-- The loop of line 1580 from lane `i` on: it ends when the one lane of results is taken.
unfoldable pub execute_lanes : List ℕ → ℕ → List MicroOp → Lanes → Lanes
unfolding execute_lane
execute_lanes int_rf i [] l = l
execute_lanes int_rf i (u ∷ us) l =
    let rest = execute_lanes int_rf (i + 1) us (execute_lane int_rf i u l) in
    if ltb l.result_idx 1 then rest else l

-- Lines 1635 to 1641: the result of the divider is lost if the lane is taken.
unfoldable pub step_divider : Lanes → Lanes
step_divider l =
    let t = execute_divider_step alu_result_init l.div_state in
    record {
      next = record l.next {
        alu_result = if t.result.valid && ltb l.result_idx 1 then t.result else l.next.alu_result;
        fp_busy = false;
      };
      div_state = t.state;
      div_busy = t.flag;
      result_idx = l.result_idx;
    }

-- Lines 1570 to 1578.
abbrev pub started : ExecuteModuleState → DividerState → Lanes
started s d = record {
  next = record s { alu_result = record s.alu_result { valid = false } };
  div_state = d;
  div_busy = false;
  result_idx = 0;
}

unfoldable pub execute_module : ExecuteModuleState → List MicroOp → List ℕ → DividerState → Lanes
unfolding execute_lanes step_divider
execute_module s issued int_rf d = step_divider (execute_lanes int_rf 0 issued (started s d))
