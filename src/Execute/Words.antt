-- ===== src/Execute/Words.antt =====
-- The 32-bit operations, `lui` and `mul`: what src/decode.cpp and src/execute.cpp make of them.
use boom.Base.{
  ℕ, zero, suc, ne→==, Bool-cases, inl, inr, ◌+◌, ◌-◌, ◌*◌, ◌/◌, ◌%◌, ◌^◌, ◌≤◌, ◌<◌, ◌≡◌, ◌≢◌, refl,
  ap, ap₂, sym, ◌∙◌, arith, ◌==◌, if◌then◌else◌, u32, u64, sext_32_64,
}
use boom.Base.Bits.{bit_and-low_mask, bit_and-high_mask}
use boom.Base.Int.{signed64, signed32, signed64-sext}
use boom.Types.Uop.{MicroOp}
use boom.State.{AluResult}
use boom.Types.Codes.{iq_alu, fu_alu, op1_rs1, op2_rs2, dst_int}
use boom.Decode.Opcodes.{operands, word_sized, op, op_32, op_32_cases, mul_cases, lui}
use boom.Decode.Fields.{f3, f7, extract_imm_u}
use boom.Execute.{by_uopc, alu_value, operand1, operand2, sext32, sub32}

sext32_signed : (v : ℕ) → v < 2 ^ 32 → signed64 (sext32 v) ≡ signed32 v
unfolding sext32
sext32_signed v h = ground (arith, bit_and-low_mask 32 v, signed64-sext v h)

-- The code that decode gives to the 32-bit register operation `f`.
abbrev word_code : ℕ → ℕ → ℕ
word_code f g =
    if f == 0
    then (if g == 0x20 then 12 else 11)
    else if f == 1
    then 13
    else if f == 5
    then (if g == 0x20 then 15 else 14)
    else 255

op_32_cases_code : (f g : ℕ) (v : MicroOp) → (op_32_cases f g v).uopc ≡ word_code f g
unfolding op_32_cases
op_32_cases_code f g v = ground arith

-- No jump, branch or memory access has such a code.
word_value :
    (f g rs1 rs2 : ℕ) (u : MicroOp) (r : AluResult)
    → (by_uopc (word_code f g) u rs1 rs2 r).result
      ≡ alu_value (word_code f g) u rs1 rs2 (operand1 u rs1) (operand2 u rs2)
unfolding by_uopc
word_value f g rs1 rs2 u r = ground arith

word_ignores :
    (f g a b c o1 o2 o3 : ℕ) (u : MicroOp)
    → (f ≡ 0 → g ≢ 0x20)
    → alu_value (word_code f g) u a b o1 o2 ≡ alu_value (word_code f g) u a c o1 o3
unfolding alu_value
word_ignores zero g a b c o1 o2 o3 u h = rw (ne→== g 0x20 (h refl))
word_ignores (suc zero) g a b c o1 o2 o3 u h = refl
word_ignores (suc (suc zero)) g a b c o1 o2 o3 u h = refl
word_ignores (suc (suc (suc zero))) g a b c o1 o2 o3 u h = refl
word_ignores (suc (suc (suc (suc zero)))) g a b c o1 o2 o3 u h = refl
word_ignores (suc (suc (suc (suc (suc zero))))) g a b c o1 o2 o3 u h =
    elim (Bool-cases (g == 0x20)) [ inl e ↦ rw e | inr e ↦ rw e ]
word_ignores (suc (suc (suc (suc (suc (suc n)))))) g a b c o1 o2 o3 u h =
    let q : word_code (suc (suc (suc (suc (suc (suc n)))))) g ≡ 255 = ground arith in rw q

-- The decoded operation, executed.
op_32_value :
    (inst rs1 rs2 : ℕ) (u : MicroOp) (r : AluResult)
    → let b = op_32 inst u in
      (by_uopc b.uopc b rs1 rs2 r).result
      ≡ alu_value (word_code (f3 inst) (f7 inst)) b rs1 rs2 (operand1 b rs1) (operand2 b rs2)
unfolding op_32
op_32_value inst rs1 rs2 u r =
    let b = op_32 inst u in
    ap (λ (c : ℕ). (by_uopc c b rs1 rs2 r).result)
      (op_32_cases_code (f3 inst) (f7 inst)
        (word_sized (operands u iq_alu fu_alu op1_rs1 op2_rs2 u.imm_packed dst_int)))
    ∙ word_value (f3 inst) (f7 inst) rs1 rs2 b r

-- `subw` gives the 64-bit form of the 32-bit signed difference of its registers.
pub subw_executes :
    (inst rs1 rs2 : ℕ) (u : MicroOp) (r : AluResult)
    → f3 inst ≡ 0
    → f7 inst ≡ 0x20
    → let b = op_32 inst u in
      signed64 (by_uopc b.uopc b rs1 rs2 r).result
      ≡ signed32 ((u32 rs1 + 2 ^ 32 - u32 rs2) % 2 ^ 32)
unfolding alu_value
subw_executes inst rs1 rs2 u r e3 e7 =
    let b = op_32 inst u in
    ap signed64 (op_32_value inst rs1 rs2 u r)
    ∙ ap₂
        (λ (f g : ℕ).
          signed64 (alu_value (word_code f g) b rs1 rs2 (operand1 b rs1) (operand2 b rs2)))
        e3 e7
    ∙ sext32_signed (sub32 rs1 rs2) (omega arith)

-- Of the other 32-bit register operations none reads its second register: `addw`, `sllw`, `srlw` and
-- `sraw` give the same value whatever that holds.
op_32_ignores_register :
    (inst rs1 rs2 other : ℕ) (u : MicroOp) (r : AluResult)
    → (f3 inst ≡ 0 → f7 inst ≢ 0x20)
    → let b = op_32 inst u in
      (by_uopc b.uopc b rs1 rs2 r).result ≡ (by_uopc b.uopc b rs1 other r).result
op_32_ignores_register inst rs1 rs2 other u r h =
    let b = op_32 inst u in
    op_32_value inst rs1 rs2 u r
    ∙ word_ignores (f3 inst) (f7 inst) rs1 rs2 other (operand1 b rs1) (operand2 b rs2)
        (operand2 b other) b h
    ∙ sym (op_32_value inst rs1 other u r)

high_field : (inst : ℕ) → inst < 2 ^ 32 → extract_imm_u inst ≡ inst / 2 ^ 12 * 2 ^ 12
unfolding extract_imm_u
high_field inst h =
    omega (arith, bit_and-high_mask 12 inst (2 ^ 20 - 1), bit_and-low_mask 20 (inst / 2 ^ 12))

-- `lui` leaves the upper half zero: on an immediate with bit 31 set, which the instruction set extends
-- by its sign, the value is another.
pub lui_not_extended :
    (inst rs1 rs2 : ℕ) (u : MicroOp) (r : AluResult)
    → inst < 2 ^ 32
    → 2 ^ 31 ≤ inst
    → let b = lui inst u in (by_uopc b.uopc b rs1 rs2 r).result ≢ sext_32_64 (extract_imm_u inst)
unfolding lui by_uopc alu_value
lui_not_extended inst rs1 rs2 u r hi top = ground (arith, high_field inst hi)

-- `mul` multiplies the lower halves alone: where the lower half of a register is zero and the product is
-- not, the value is another.
mul_drops_halves :
    (inst rs1 rs2 : ℕ) (u : MicroOp) (r : AluResult)
    → f3 inst ≡ 0
    → f7 inst ≡ 1
    → u32 rs1 ≡ 0
    → u64 (rs1 * rs2) ≢ 0
    → let b = op inst u in (by_uopc b.uopc b rs1 rs2 r).result ≢ u64 (rs1 * rs2)
unfolding op mul_cases by_uopc alu_value
mul_drops_halves inst rs1 rs2 u r e3 e7 low high = ground arith
