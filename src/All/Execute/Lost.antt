-- ===== src/All/Execute/Lost.antt =====
-- The one lane of results of `execute_module` in src/boom_all.cpp.
use boom.Base.{
  ℕ, ◌≡◌, refl, ap, arith, Bool, true, false, not, ◌&&◌, ◌||◌, ◌==◌, ◌!=◌, ltb, List, [], ◌∷◌, ◌++◌,
  if_false, get_or, ◌+◌, if◌then◌else◌,
}
use boom.Types.Codes.{fu_csr, fu_mem}
use boom.Types.Uop.{MicroOp}
use boom.State.{AluResult}
use boom.Decode.Uopc
use boom.All.Issue.{iq_fpu}
use boom.All.Divider.{DividerState}
use boom.All.Alu.{unit_result, cleared, is_division, execute_alu_unit}
use boom.All.Execute.{
  ExecuteModuleState, Lanes, started, execute_lane, execute_lanes, step_divider, execute_module,
}

-- The operation is not one of floating point nor, unless another unit takes it, a division.
abbrev pub takes_lane : MicroOp → Bool
takes_lane u =
    u.uopc == Uopc.illegal
    || (u.iq_type != iq_fpu
        && (u.fu_code == fu_csr || u.fu_code == fu_mem || not (is_division u.uopc)))

unit_result-valid :
    (u : MicroOp) (rs1 rs2 pc : ℕ) (r : AluResult) → (unit_result u rs1 rs2 pc r).valid ≡ r.valid
unfolding unit_result
unit_result-valid u rs1 rs2 pc r = ground arith

lane_taken :
    (int_rf : List ℕ) (i : ℕ) (u : MicroOp) (l : Lanes)
    → takes_lane u ≡ true
    → l.result_idx ≡ 0
    → (execute_lane int_rf i u l).result_idx ≡ 1
unfolding execute_lane execute_alu_unit
lane_taken int_rf i u l takes free = ground (
  arith,
  takes,
  free,
  unit_result-valid u (get_or int_rf u.rename.prs1 0) (get_or int_rf u.rename.prs2 0) u.debug_pc
      (cleared l.next.alu_result u),
)

if_same {ℓ} :
    {A : Type ℓ} (b : Bool) {x y : A} (z : A)
    → (b ≡ true → x ≡ y)
    → (if b then x else z) ≡ (if b then y else z)
if_same true z h = h refl
if_same false z h = refl

lanes_stop :
    (int_rf : List ℕ) (i : ℕ) (us : List MicroOp) (l : Lanes)
    → l.result_idx ≡ 1
    → execute_lanes int_rf i us l ≡ l
unfolding execute_lanes
lanes_stop int_rf i [] l full = refl
lanes_stop int_rf i (u ∷ us) l full = if_false {b = ltb l.result_idx 1} _ _ (ground (arith, full))

-- Behind an operation that takes the lane of results the loop changes nothing, whatever it began with.
lanes_behind :
    (int_rf : List ℕ) (u : MicroOp) (us : List MicroOp)
    → takes_lane u ≡ true
    → (before : List MicroOp) (i : ℕ) (l : Lanes)
    → execute_lanes int_rf i (before ++ u ∷ us) l ≡ execute_lanes int_rf i (before ++ u ∷ []) l
unfolding execute_lanes
lanes_behind int_rf u us takes [] i l =
    if_same (ltb l.result_idx 1) l (λ free.
      lanes_stop int_rf (i + 1) us _ (lane_taken int_rf i u l takes (ground (arith, free))))
lanes_behind int_rf u us takes (w ∷ before) i l =
    if_same (ltb l.result_idx 1) l
      (λ free. lanes_behind int_rf u us takes before (i + 1) (execute_lane int_rf i w l))

-- Whatever is issued behind an operation that is illegal, or neither of floating point nor a division of
-- the integer unit, is not executed: the result, the divider and the rest of the state are those of the
-- operations up to this one, whatever stands before it.
pub later_lanes_lost :
    (s : ExecuteModuleState) (int_rf : List ℕ) (d : DividerState) (before : List MicroOp)
    (u : MicroOp) (us : List MicroOp)
    → takes_lane u ≡ true
    → execute_module s (before ++ u ∷ us) int_rf d ≡ execute_module s (before ++ u ∷ []) int_rf d
unfolding execute_module
later_lanes_lost s int_rf d before u us takes =
    ap step_divider (lanes_behind int_rf u us takes before 0 (started s d))
