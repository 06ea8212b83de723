-- ===== src/Execute/Branches.antt =====
-- A branch that src/decode.cpp decodes, executed by src/execute.cpp.
use boom.Base.{
  ℕ, ◌+◌, ◌^◌, ◌<◌, ◌≡◌, arith, Bool, false, not, ◌==◌, ◌!=◌, ltb, if◌then◌else◌, u64, sext_32_64,
}
use boom.Base.Int.{less, signed64, ltb_signed-less}
use boom.Types.Codes.{br_eq, br_ne, br_lt, br_ge, br_ltu}
use boom.Types.Uop.{MicroOp}
use boom.State.{AluResult}
use boom.Decode.Opcodes.{branch, branch_cases}
use boom.Decode.Fields.{extract_imm_b}
use boom.Execute.{branch_taken, by_uopc}

-- The condition that a `br_type` names, on registers that hold 64-bit patterns.
abbrev pub holds : ℕ → ℕ → ℕ → Bool
holds br rs1 rs2 =
    if br == br_eq
    then rs1 == rs2
    else if br == br_ne
    then rs1 != rs2
    else if br == br_lt
    then less (signed64 rs1) (signed64 rs2)
    else if br == br_ge
    then not (less (signed64 rs1) (signed64 rs2))
    else if br == br_ltu
    then ltb rs1 rs2
    else not (ltb rs1 rs2)

-- A conditional branch that decode does not refuse is taken exactly if the condition of its `br_type`
-- holds of its registers, signed or unsigned as that says, and it then redirects to its address
-- displaced by its immediate. It makes no value and no memory access.
pub branch_executes :
    (inst rs1 rs2 : ℕ) (u : MicroOp) (r : AluResult)
    → rs1 < 2 ^ 64
    → rs2 < 2 ^ 64
    → u.exception ≡ false
    → (branch inst u).exception ≡ false
    → let b = branch inst u in
      let t = by_uopc b.uopc b rs1 rs2 r in
      (t.mispredict ≡ holds b.ctrl.br_type rs1 rs2)
      × (t.redirect_pc ≡ u64 (u.debug_pc + sext_32_64 (extract_imm_b inst)))
      × (t.result ≡ r.result)
      × (t.memory_valid ≡ r.memory_valid)
unfolding branch branch_cases by_uopc branch_taken
branch_executes inst rs1 rs2 u r h1 h2 fine ok = ground (arith, ltb_signed-less rs1 rs2 h1 h2)
