-- ===== src/Execute/Immediate.antt =====
-- Immediate arithmetic: where src/execute.cpp computes what the instruction set defines, and the two
-- operations where it does not.
use boom.Base.{
  ℕ, zero, suc, ◌-◌, ◌/◌, ◌%◌, ◌^◌, ◌≤◌, ◌<◌, ◌≡◌, ◌≢◌, refl, ap, ap₂, sym, ◌∙◌, arith, Bool, true,
  false, ◌&&◌, ◌==◌, ◌!=◌, ltb, if◌then◌else◌, sext_32_64,
}
use boom.Base.Bits.{bit_and-low_mask}
use boom.Base.Int.{signed64, floor_div, pattern64}
use native.Mathlib.Nat.{pow-suc, mul_comm, div-div-eq-div-mul, div-le_self}
use boom.Types.Uop.{MicroOp}
use boom.State.{AluResult}
use boom.Types.Codes.{iq_alu, fu_alu, op1_rs1, op2_imm, dst_int}
use boom.Decode.Opcodes.{op_imm, op_imm_cases, operands}
use boom.Decode.Fields.{f3, f7, extract_imm_i}
use boom.Execute.{by_uopc, alu_value, operand1, operand2, bool_bit}
use boom.Execute.Arithmetic.{reference, f3-lt, op_code, arithmetic_value}

-- The code that decode gives to the immediate operation `f`.
abbrev imm_code : ℕ → ℕ → ℕ
imm_code f g =
    if f == 0
    then 50
    else if f == 1
    then 51
    else if f == 2
    then 52
    else if f == 3
    then 53
    else if f == 4
    then 54
    else if f == 5
    then (if g == 0 then 55 else 56)
    else if f == 6
    then 57
    else 58

op_imm_cases_code : (f g : ℕ) (v : MicroOp) → f < 8 → (op_imm_cases f g v).uopc ≡ imm_code f g
unfolding op_imm_cases
op_imm_cases_code f g v h = ground arith

op_imm_cases_rest :
    (f g : ℕ) (v : MicroOp)
    → ((op_imm_cases f g v).ctrl ≡ v.ctrl) × ((op_imm_cases f g v).imm_packed ≡ v.imm_packed)
unfolding op_imm_cases
op_imm_cases_rest f g v = ground arith

imm_code-bounds : (f g : ℕ) → (50 ≤ imm_code f g) × (imm_code f g ≤ 58)
imm_code-bounds f g = ground arith

-- An immediate operation computes a value alone.
by_uopc_imm :
    (c rs1 rs2 : ℕ) (u : MicroOp) (r : AluResult)
    → 50 ≤ c
    → (by_uopc c u rs1 rs2 r).result ≡ alu_value c u rs1 rs2 (operand1 u rs1) (operand2 u rs2)
unfolding by_uopc
by_uopc_imm c rs1 rs2 u r h = ground arith

-- It computes the value of the register operation with the immediate for its second register, but for
-- `sltiu`, which still reads the registers.
imm_value :
    (f g : ℕ) (v : MicroOp) (a b i : ℕ)
    → f < 8
    → f ≢ 3
    → alu_value (imm_code f g) v a b a i ≡ alu_value (op_code f (f == 5 && g != 0)) v a i a i
unfolding alu_value
imm_value zero g v a b i h ne = refl
imm_value (suc zero) g v a b i h ne = refl
imm_value (suc (suc zero)) g v a b i h ne = refl
imm_value (suc (suc (suc zero))) g v a b i h ne = absurd (ne refl)
imm_value (suc (suc (suc (suc zero)))) g v a b i h ne = refl
imm_value (suc (suc (suc (suc (suc zero))))) g v a b i h ne = ground arith
imm_value (suc (suc (suc (suc (suc (suc zero)))))) g v a b i h ne = refl
imm_value (suc (suc (suc (suc (suc (suc (suc zero))))))) g v a b i h ne = refl
imm_value (suc (suc (suc (suc (suc (suc (suc (suc n)))))))) g v a b i h ne = absurd (omega arith)

sext_32_64-lt : (x : ℕ) → x < 2 ^ 32 → sext_32_64 x < 2 ^ 64
sext_32_64-lt x h = ground arith

-- What decode makes of an immediate operation, before its code is chosen.
abbrev decoded : ℕ → MicroOp → MicroOp
decoded inst u = operands u iq_alu fu_alu op1_rs1 op2_imm (extract_imm_i inst) dst_int

operands_of_imm :
    (f g inst rs1 rs2 : ℕ) (u : MicroOp)
    → (operand1 (op_imm_cases f g (decoded inst u)) rs1 ≡ rs1)
      × (operand2 (op_imm_cases f g (decoded inst u)) rs2 ≡ sext_32_64 (extract_imm_i inst))
unfolding operand1 operand2
operands_of_imm f g inst rs1 rs2 u = ground (arith, op_imm_cases_rest f g (decoded inst u))

extract_imm_i-lt : (inst : ℕ) → inst < 2 ^ 32 → extract_imm_i inst < 2 ^ 32
unfolding extract_imm_i
extract_imm_i-lt inst h = ground arith

-- An immediate operation other than `sltiu` has the value that the instruction set gives to its `funct3`
-- on the register and the sign-extended immediate, with the right shift arithmetic exactly if `funct7`
-- is not zero.
pub op_imm_executes :
    (inst rs1 rs2 : ℕ) (u : MicroOp) (r : AluResult)
    → inst < 2 ^ 32
    → rs1 < 2 ^ 64
    → f3 inst ≢ 3
    → let b = op_imm inst u in
      (by_uopc b.uopc b rs1 rs2 r).result
      ≡ reference (f3 inst) (f3 inst == 5 && f7 inst != 0) rs1 (sext_32_64 (extract_imm_i inst))
unfolding op_imm
op_imm_executes inst rs1 rs2 u r hi h1 ne =
    let f = f3 inst in
    let g = f7 inst in
    let b = op_imm_cases f g (decoded inst u) in
    let imm = sext_32_64 (extract_imm_i inst) in
    let code = op_imm_cases_code f g (decoded inst u) (f3-lt inst) in
    let (e1, e2) = operands_of_imm f g inst rs1 rs2 u in
    by_uopc_imm b.uopc rs1 rs2 b r (omega (arith, code, imm_code-bounds f g))
    ∙ ap₂ (alu_value b.uopc b rs1 rs2) e1 e2
    ∙ ap (λ (c : ℕ). alu_value c b rs1 rs2 rs1 imm) code
    ∙ imm_value f g b rs1 rs2 imm (f3-lt inst) ne
    ∙ arithmetic_value f (f == 5 && g != 0) b rs1 imm h1
        (sext_32_64-lt (extract_imm_i inst) (extract_imm_i-lt inst hi)) (f3-lt inst)

bool_bit-injective : (b c : Bool) → bool_bit b ≡ bool_bit c → b ≡ c
bool_bit-injective true true e = refl
bool_bit-injective true false e = absurd (omega arith)
bool_bit-injective false true e = absurd (omega arith)
bool_bit-injective false false e = refl

sltiu_value :
    (inst rs1 rs2 : ℕ) (u : MicroOp) (r : AluResult)
    → f3 inst ≡ 3
    → let b = op_imm inst u in (by_uopc b.uopc b rs1 rs2 r).result ≡ bool_bit (ltb rs1 rs2)
unfolding op_imm alu_value
sltiu_value inst rs1 rs2 u r e =
    let b = op_imm_cases (f3 inst) (f7 inst) (decoded inst u) in
    let code : b.uopc ≡ 53 =
      op_imm_cases_code (f3 inst) (f7 inst) (decoded inst u) (f3-lt inst)
      ∙ ap (λ (f : ℕ). imm_code f (f7 inst)) e in
    by_uopc_imm b.uopc rs1 rs2 b r (omega (arith, code))
    ∙ ap (λ (c : ℕ). alu_value c b rs1 rs2 (operand1 b rs1) (operand2 b rs2)) code

-- `sltiu` compares its register with another register in place of its immediate: wherever the two
-- comparisons differ, so does the value from what the instruction set defines.
sltiu_ignores_immediate :
    (inst rs1 rs2 : ℕ) (u : MicroOp) (r : AluResult)
    → f3 inst ≡ 3
    → ltb rs1 rs2 ≢ ltb rs1 (sext_32_64 (extract_imm_i inst))
    → let b = op_imm inst u in
      (by_uopc b.uopc b rs1 rs2 r).result ≢ reference 3 false rs1 (sext_32_64 (extract_imm_i inst))
unfolding reference
sltiu_ignores_immediate inst rs1 rs2 u r e differ same =
    differ (bool_bit-injective _ _ (sym (sltiu_value inst rs1 rs2 u r e) ∙ same))

div-lt_half : (a k : ℕ) → 0 < k → a < 2 ^ 64 → a / 2 ^ k < 2 ^ 63
div-lt_half a zero pos h = absurd (omega arith)
div-lt_half a (suc m) pos h =
    rw (pow-suc 2 m, mul_comm (2 ^ m) 2)
      (omega (arith, div-div-eq-div-mul a 2 (2 ^ m), div-le_self (a / 2) (2 ^ m)))

-- The shift by 32 or more that such an instruction names.
wide_amount : (inst : ℕ) → inst < 2 ^ 32 → f7 inst ≡ 1 → 32 ≤ sext_32_64 (extract_imm_i inst) % 64
unfolding f7 extract_imm_i
wide_amount inst h e = ground (arith, bit_and-low_mask 7 (inst / 2 ^ 25))

-- The arithmetic shift of a negative number keeps the top bit, the logical one loses it.
shifts_differ :
    (x k : ℕ)
    → 2 ^ 63 ≤ x
    → x < 2 ^ 64
    → 0 < k
    → pattern64 (floor_div (signed64 x) (2 ^ k)) ≢ x / 2 ^ k
shifts_differ x k neg h pos =
    ground (arith, div-lt_half x k pos h, div-le_self (2 ^ 64 - 1 - x) (2 ^ k))

-- `srli` by 32 or more has `funct7` 1, which decode takes for `srai`: on a register with its top bit set
-- the value is not what the instruction set defines.
srli_wide_shifts_sign :
    (inst rs1 rs2 : ℕ) (u : MicroOp) (r : AluResult)
    → inst < 2 ^ 32
    → f3 inst ≡ 5
    → f7 inst ≡ 1
    → 2 ^ 63 ≤ rs1
    → rs1 < 2 ^ 64
    → let b = op_imm inst u in
      (by_uopc b.uopc b rs1 rs2 r).result ≢ reference 5 false rs1 (sext_32_64 (extract_imm_i inst))
unfolding reference
srli_wide_shifts_sign inst rs1 rs2 u r hi e3 e7 neg h1 same =
    let imm = sext_32_64 (extract_imm_i inst) in
    shifts_differ rs1 (imm % 64) neg h1 (omega (arith, wide_amount inst hi e7)) (
      sym (ap₂ (λ (f g : ℕ). reference f (f == 5 && g != 0) rs1 imm) e3 e7)
      ∙ sym (op_imm_executes inst rs1 rs2 u r hi h1 (omega (arith, e3)))
      ∙ same)
