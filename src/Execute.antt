-- ===== src/Execute.antt =====
-- src/execute.cpp: the integer unit. A 64-bit value is its pattern, a number below 2 ^ 64; signed
-- arithmetic that C++ leaves undefined on overflow wraps here, as on the hardware.
pub mod Branches
pub mod Arithmetic
pub mod Immediate
pub mod Words
use boom.Base.{
  ℕ, ◌+◌, ◌-◌, ◌*◌, ◌^◌, ◌<<<◌, ◌>>>◌, bit_and, bit_or, bit_xor, u8, u32, u64, sext_32_64, sra32,
  sra64, ltb_signed, Bool, true, not, ◌&&◌, ◌||◌, ◌==◌, ◌!=◌, ltb, leb, if◌then◌else◌, List, [],
  ◌∷◌, get_or, set,
}
use boom.Types.Codes.{op1_pc, op2_imm, op2_imz, op2_imu, dst_int}
use boom.Types.Uop.{MicroOp}
use boom.State.{BoomCoreState, AluResult, alu_result_init}

pub sext32 : ℕ → ℕ
sext32 v = sext_32_64 (bit_and v 0xFFFFFFFF)

unfoldable pub mask_for_size : ℕ → ℕ
mask_for_size size = u8 (if leb 3 size then 0xFF else (1 <<< (1 <<< size)) - 1)

-- Lines 21 and 22: physical register 0 reads as zero.
pub read_reg : List ℕ → ℕ → ℕ
read_reg rf p = if p != 0 then get_or rf p 0 else 0

-- Lines 25 to 28.
pub operand1 : MicroOp → ℕ → ℕ
operand1 u rs1 = if u.ctrl.op1_sel == op1_pc then u.debug_pc else rs1

pub operand2 : MicroOp → ℕ → ℕ
operand2 u rs2 =
    if u.ctrl.op2_sel == op2_imu
    then u.imm_packed
    else if u.ctrl.op2_sel == op2_imm || u.ctrl.op2_sel == op2_imz
    then sext_32_64 u.imm_packed
    else rs2

-- `(int32_t)rs1 + …` and `(int32_t)rs1 - …` before the sign extension.
abbrev pub add32 : ℕ → ℕ → ℕ
add32 a b = u32 (u32 a + u32 b)

abbrev pub sub32 : ℕ → ℕ → ℕ
sub32 a b = u32 (u32 a + 2 ^ 32 - u32 b)

abbrev pub bool_bit : Bool → ℕ
bool_bit b = if b then 1 else 0

-- The target of `jal` and of the branches, `pc + (int64_t)(int32_t)imm`; also an address, from `rs1`.
abbrev pub displaced : ℕ → ℕ → ℕ
displaced base imm = u64 (base + sext_32_64 imm)

abbrev set_result : AluResult → ℕ → AluResult
set_result r v = record r { result = v }

abbrev set_branch : AluResult → Bool → ℕ → AluResult
set_branch r taken target = record r { mispredict = taken; redirect_pc = target }

abbrev one_of : ℕ → ℕ → ℕ → Bool
one_of c a b = c == a || c == b

-- Lines 35 to 49, 58 and 59: the cases that only compute a value.
pub alu_value : ℕ → MicroOp → ℕ → ℕ → ℕ → ℕ → ℕ
unfolding sext32
alu_value c u rs1 rs2 op1 op2 =
    if one_of c 1 50
    then u64 (op1 + op2)
    else if c == 2
    then u64 (op1 + 2 ^ 64 - op2)
    else if one_of c 3 51
    then u64 (op1 <<< bit_and op2 0x3F)
    else if one_of c 4 52
    then bool_bit (ltb_signed op1 op2)
    else if one_of c 5 53
    then bool_bit (ltb rs1 rs2)
    else if one_of c 6 54
    then bit_xor op1 op2
    else if one_of c 7 55
    then rs1 >>> bit_and op2 0x3F
    else if one_of c 8 56
    then sra64 op1 (bit_and op2 0x3F)
    else if one_of c 9 57
    then bit_or op1 op2
    else if one_of c 10 58
    then bit_and op1 op2
    else if one_of c 11 59
    then sext32 (add32 rs1 u.imm_packed)
    else if c == 12
    then sext32 (sub32 rs1 rs2)
    else if one_of c 13 60
    then sext32 (u32 (u32 rs1 <<< bit_and u.imm_packed 0x1F))
    else if one_of c 15 62
    then sext32 (sra32 (u32 rs1) (bit_and u.imm_packed 0x1F))
    else if c == 16
    then u64 (sext_32_64 (u32 rs1) * sext_32_64 (u32 rs2))
    else if c == 37
    then u.imm_packed
    else if c == 38
    then u64 (u.debug_pc + u.imm_packed)
    else 0

-- Lines 52 to 57: the condition of a branch.
pub branch_taken : ℕ → ℕ → ℕ → Bool
branch_taken c rs1 rs2 =
    if c == 31
    then rs1 == rs2
    else if c == 32
    then rs1 != rs2
    else if c == 33
    then ltb_signed rs1 rs2
    else if c == 34
    then not (ltb_signed rs1 rs2)
    else if c == 35
    then ltb rs1 rs2
    else not (ltb rs1 rs2)

-- Lines 60 to 67: the address of a load or a store, and what a store writes.
pub access : ℕ → MicroOp → ℕ → ℕ → AluResult → AluResult
access c u rs1 rs2 r =
    if leb c 45
    then record r {
      memory_valid = true;
      is_load = true;
      signed_load = u.mem.mem_signed;
      memory_size = u.mem.mem_size;
      memory_address = displaced rs1 u.imm_packed;
      memory_mask = mask_for_size u.mem.mem_size;
      result = displaced rs1 u.imm_packed;
    }
    else record r {
      memory_valid = true;
      is_store = true;
      memory_size = u.mem.mem_size;
      memory_address = displaced rs1 u.imm_packed;
      store_data = rs2;
      memory_mask = mask_for_size u.mem.mem_size;
      result = displaced rs1 u.imm_packed;
    }

-- The whole switch.
pub by_uopc : ℕ → MicroOp → ℕ → ℕ → AluResult → AluResult
by_uopc c u rs1 rs2 r =
    if c == 29
    then set_branch (set_result r (u64 (u.debug_pc + 4))) true (displaced u.debug_pc u.imm_packed)
    else if c == 30
    then set_branch (set_result r (u64 (u.debug_pc + 4))) true
        (bit_and (displaced rs1 u.imm_packed) (2 ^ 64 - 2))
    else if leb 31 c && leb c 36
    then set_branch r (branch_taken c rs1 rs2) (displaced u.debug_pc u.imm_packed)
    else if leb 39 c && leb c 49
    then access c u rs1 rs2 r
    else set_result r (alu_value c u rs1 rs2 (operand1 u rs1) (operand2 u rs2))

-- Lines 21 to 72, without the register write: the result of one operation.
pub compute : List ℕ → MicroOp → AluResult
compute rf u =
    let rs1 = read_reg rf u.rename.prs1 in
    let rs2 = read_reg rf u.rename.prs2 in
    let r = by_uopc u.uopc u rs1 rs2 (record alu_result_init { valid = true; uop = u }) in
    if u.exception then record r { exception = true; exc_cause = u.exc_cause } else r

-- Lines 74 to 76.
pub write_back : List ℕ → AluResult → List ℕ
write_back rf r =
    if r.valid && not r.is_load && r.uop.rename.dst_rtype == dst_int && r.uop.rename.pdst != 0
    then set rf r.uop.rename.pdst r.result
    else rf

-- The loop over the issue ports stops after one result: it executes the first valid port.
unfoldable pub first_issued : List Bool → List MicroOp → List MicroOp
first_issued [] us = []
first_issued (v ∷ vs) [] = []
first_issued (v ∷ vs) (u ∷ us) = let rest = first_issued vs us in if v then u ∷ [] else rest

unfoldable pub execute_issued : List MicroOp → BoomCoreState → BoomCoreState
execute_issued [] s = record s { execute = record { alu_result = alu_result_init } }
execute_issued (u ∷ us) s = record s {
  execute = record { alu_result = compute s.int_rf u };
  int_rf = write_back s.int_rf (compute s.int_rf u);
}

unfoldable pub execute_module : BoomCoreState → BoomCoreState
execute_module s = execute_issued (first_issued s.issue.issued_valids s.issue.issued_uops) s
