-- ===== src/Execute/Arithmetic.antt =====
-- Register and immediate arithmetic: what src/decode.cpp decodes, src/execute.cpp computes as the
-- instruction set defines it.
use boom.Base.{
  ℕ, zero, suc, ◌+◌, ◌-◌, ◌*◌, ◌/◌, ◌%◌, ◌^◌, ◌<◌, ◌≡◌, ◌≢◌, ◌≤◌, refl, ap, ap₂, sym, subst, ◌∙◌,
  if_false, ne→==, arith, Bool, ◌==◌, ltb, if◌then◌else◌, u64, bit_and, bit_or, bit_xor,
}
use boom.Base.Bits.{bit_and-low_mask}
use boom.Base.Int.{less, signed64, ltb_signed-less, floor_div, pattern64, sra64-floor_div}
use boom.Types.Uop.{MicroOp, DecodeControl}
use boom.State.{AluResult}
use boom.Types.Codes.{iq_alu, fu_alu, op1_rs1, op2_rs2, dst_int}
use boom.Decode.Opcodes.{operands, op, op_cases}
use boom.Decode.Fields.{f3, f7}
use boom.Execute.{by_uopc, alu_value, operand1, operand2}

-- The value of the operation `f` on two 64-bit patterns. `alternate` chooses subtraction for addition
-- and the arithmetic right shift for the logical one.
unfoldable pub reference : ℕ → Bool → ℕ → ℕ → ℕ
reference f alternate a b =
    if f == 0
    then (if alternate then u64 (a + 2 ^ 64 - b) else u64 (a + b))
    else if f == 1
    then u64 (a * 2 ^ (b % 64))
    else if f == 2
    then (if less (signed64 a) (signed64 b) then 1 else 0)
    else if f == 3
    then (if ltb a b then 1 else 0)
    else if f == 4
    then bit_xor a b
    else if f == 5
    then (if alternate then pattern64 (floor_div (signed64 a) (2 ^ (b % 64))) else a / 2 ^ (b % 64))
    else if f == 6
    then bit_or a b
    else bit_and a b

pub f3-lt : (inst : ℕ) → f3 inst < 8
unfolding f3
f3-lt inst = omega (arith, bit_and-low_mask 3 (inst / 2 ^ 12))

-- The code that decode gives to the register operation `f`.
abbrev pub op_code : ℕ → Bool → ℕ
op_code f alternate =
    if f == 0
    then (if alternate then 2 else 1)
    else if f == 1
    then 3
    else if f == 2
    then 4
    else if f == 3
    then 5
    else if f == 4
    then 6
    else if f == 5
    then (if alternate then 8 else 7)
    else if f == 6
    then 9
    else 10

pub arithmetic_value :
    (f : ℕ) (alternate : Bool) (v : MicroOp) (a b : ℕ)
    → a < 2 ^ 64
    → b < 2 ^ 64
    → f < 8
    → alu_value (op_code f alternate) v a b a b ≡ reference f alternate a b
unfolding alu_value reference
arithmetic_value zero alternate v a b ha hb hf = ground arith
arithmetic_value (suc zero) alternate v a b ha hb hf = ground (arith, bit_and-low_mask 6 b)
arithmetic_value (suc (suc zero)) alternate v a b ha hb hf =
    ground (arith, ltb_signed-less a b ha hb)
arithmetic_value (suc (suc (suc zero))) alternate v a b ha hb hf = ground arith
arithmetic_value (suc (suc (suc (suc zero)))) alternate v a b ha hb hf = ground arith
arithmetic_value (suc (suc (suc (suc (suc zero))))) alternate v a b ha hb hf =
    ground (arith, sra64-floor_div a (b % 64) ha, bit_and-low_mask 6 b)
arithmetic_value (suc (suc (suc (suc (suc (suc zero)))))) alternate v a b ha hb hf = ground arith
arithmetic_value (suc (suc (suc (suc (suc (suc (suc zero))))))) alternate v a b ha hb hf =
    ground arith
arithmetic_value (suc (suc (suc (suc (suc (suc (suc (suc n)))))))) alternate v a b ha hb hf =
    absurd (omega arith)

op_cases_code : (f g : ℕ) (v : MicroOp) → f < 8 → (op_cases f g v).uopc ≡ op_code f (g == 0x20)
unfolding op_cases
op_cases_code f g v h = ground arith

op_code-le : (f : ℕ) (alternate : Bool) → op_code f alternate ≤ 10
op_code-le f alternate = ground arith

op_cases_ctrl : (f g : ℕ) (v : MicroOp) → (op_cases f g v).ctrl ≡ v.ctrl
unfolding op_cases
op_cases_ctrl f g v = ground arith

-- A code below those of the jumps only computes a value.
pub by_uopc_value :
    (c rs1 rs2 : ℕ) (u : MicroOp) (r : AluResult)
    → c ≤ 28
    → (by_uopc c u rs1 rs2 r).result ≡ alu_value c u rs1 rs2 (operand1 u rs1) (operand2 u rs2)
unfolding by_uopc
by_uopc_value c rs1 rs2 u r h = ground arith

pub registers_1 : (u : MicroOp) (rs1 : ℕ) → u.ctrl.op1_sel ≡ 0 → operand1 u rs1 ≡ rs1
unfolding operand1
registers_1 u rs1 e = ground arith

registers_2 : (u : MicroOp) (rs2 : ℕ) → u.ctrl.op2_sel ≡ 0 → operand2 u rs2 ≡ rs2
unfolding operand2
registers_2 u rs2 e = ground arith

op_value :
    (f g rs1 rs2 : ℕ) (v : MicroOp) (r : AluResult)
    → rs1 < 2 ^ 64
    → rs2 < 2 ^ 64
    → f < 8
    → v.ctrl.op1_sel ≡ 0
    → v.ctrl.op2_sel ≡ 0
    → (by_uopc (op_cases f g v).uopc (op_cases f g v) rs1 rs2 r).result
      ≡ reference f (g == 0x20) rs1 rs2
op_value f g rs1 rs2 v r h1 h2 hf e1 e2 =
    let b = op_cases f g v in
    let code = op_cases_code f g v hf in
    by_uopc_value b.uopc rs1 rs2 b r (omega (arith, code, op_code-le f (g == 0x20)))
    ∙ ap₂ (alu_value b.uopc b rs1 rs2)
        (registers_1 b rs1 (ap (λ (c : DecodeControl). c.op1_sel) (op_cases_ctrl f g v) ∙ e1))
        (registers_2 b rs2 (ap (λ (c : DecodeControl). c.op2_sel) (op_cases_ctrl f g v) ∙ e2))
    ∙ ap (λ (c : ℕ). alu_value c b rs1 rs2 rs1 rs2) code
    ∙ arithmetic_value f (g == 0x20) b rs1 rs2 h1 h2 hf

-- A register operation outside the multiplications has the value that the instruction set gives to its
-- `funct3` and `funct7` on the two registers, for all eight operations and both variants.
pub op_executes :
    (inst rs1 rs2 : ℕ) (u : MicroOp) (r : AluResult)
    → rs1 < 2 ^ 64
    → rs2 < 2 ^ 64
    → f7 inst ≢ 1
    → let b = op inst u in
      (by_uopc b.uopc b rs1 rs2 r).result ≡ reference (f3 inst) (f7 inst == 0x20) rs1 rs2
unfolding op
op_executes inst rs1 rs2 u r h1 h2 no_mul =
    subst
      (λ (b : MicroOp).
        (by_uopc b.uopc b rs1 rs2 r).result ≡ reference (f3 inst) (f7 inst == 0x20) rs1 rs2)
      (sym (if_false _ _ (ne→== (f7 inst) 1 no_mul)))
      (op_value (f3 inst) (f7 inst) rs1 rs2
        (operands u iq_alu fu_alu op1_rs1 op2_rs2 u.imm_packed dst_int) r h1 h2 (f3-lt inst) refl
        refl)
