-- ===== src/All/Decode/Agreement.antt =====
-- The two decoders, `decode` of src/decode.cpp and `decode_one` of src/boom_all.cpp, on the base
-- instructions.
use boom.Base.{
  ℕ, Bool, true, false, not, ◌||◌, ◌==◌, ltb, if_true, if_false, ne→==, if◌then◌else◌, ◌≡◌, ◌≢◌,
  refl, sym, ap, ◌∙◌, arith,
}
use boom.Types.Uop.{MicroOp}
use boom.Decode
use boom.Execute.Arithmetic.{f3-lt}
use boom.Decode.Opcodes
use boom.Decode.Fields.{opcode, f3, f7}
use boom.Decode.{common_fields, raise_illegal, decode}
use boom.All.Decode.Control
use boom.All.Decode.Arithmetic
use boom.All.Decode.{decode_one, by_opcode, system}

-- A micro-operation without the fields that only `decode_one` fills.
unfoldable pub plain : MicroOp → MicroOp
plain u = record u {
  ctrl = record u.ctrl { imm_sel = 0; op_fcn = 0 };
  debug_inst = 0;
  is_unique = false;
}

pub has_shift_code : ℕ → Bool
has_shift_code inst = if f3 inst == 5 then f7 inst == 0 || f7 inst == 0x20 else true

-- The instructions that are compared: of the opcodes but SYSTEM (0x73), on which the decoders differ, a
-- load with funct3 other than 7, an immediate shift right with one of its two codes, an operation with
-- funct7 other than 1 or with funct3 0 or from 4 to 7, a word-sized operation with funct7 other than 1,
-- and every lui, auipc, jal, jalr, branch, store and fence.
unfoldable pub is_compared : ℕ → Bool
is_compared inst =
    if opcode inst == 0x37
    then true
    else if opcode inst == 0x17
    then true
    else if opcode inst == 0x6F
    then true
    else if opcode inst == 0x67
    then true
    else if opcode inst == 0x63
    then true
    else if opcode inst == 0x03
    then not (f3 inst == 7)
    else if opcode inst == 0x23
    then true
    else if opcode inst == 0x13
    then has_shift_code inst
    else if opcode inst == 0x1B
    then has_shift_code inst
    else if opcode inst == 0x33
    then (if f7 inst == 1 then f3 inst == 0 || ltb 3 (f3 inst) else true)
    else if opcode inst == 0x3B
    then not (f7 inst == 1)
    else opcode inst == 0x0F

agree_if {ℓ κ} :
    {A : Type ℓ} {B : Type κ} (f : A → B) (b : Bool) {p q : Bool} {x y x' y' : A}
    → (if b then p else q) ≡ true
    → (p ≡ true → f x ≡ f x')
    → (q ≡ true → f y ≡ f y')
    → f (if b then x else y) ≡ f (if b then x' else y')
agree_if f true h l r = l h
agree_if f false h l r = r h

module _ (inst pc : ℕ) where
  abbrev common : MicroOp
  common = record (common_fields pc inst) { debug_inst = inst }

  lui_agree : plain (Control.lui inst common) ≡ plain (Opcodes.lui inst (common_fields pc inst))
  unfolding plain common_fields Control.lui Opcodes.lui
  lui_agree = refl

  auipc_agree :
      plain (Control.auipc inst common) ≡ plain (Opcodes.auipc inst (common_fields pc inst))
  unfolding plain common_fields Control.auipc Opcodes.auipc
  auipc_agree = refl

  jal_agree : plain (Control.jal inst common) ≡ plain (Opcodes.jal inst (common_fields pc inst))
  unfolding plain common_fields Control.jal Opcodes.jal
  jal_agree = refl

  jalr_agree : plain (Control.jalr inst common) ≡ plain (Opcodes.jalr inst (common_fields pc inst))
  unfolding plain common_fields Control.jalr Opcodes.jalr
  jalr_agree = refl

  branch_agree :
      plain (Control.branch inst common) ≡ plain (Opcodes.branch inst (common_fields pc inst))
  unfolding plain common_fields Control.branch Control.branch_cases Opcodes.branch
      Opcodes.branch_cases
  branch_agree = ground arith

  load_agree :
      not (f3 inst == 7) ≡ true
      → plain (Control.load inst common) ≡ plain (Opcodes.load inst (common_fields pc inst))
  unfolding plain common_fields Control.load Control.load_cases Opcodes.load Opcodes.load_cases
  load_agree h = ground (arith, f3-lt inst)

  store_agree :
      plain (Control.store inst common) ≡ plain (Opcodes.store inst (common_fields pc inst))
  unfolding plain common_fields Control.store Control.store_cases Opcodes.store Opcodes.store_cases
  store_agree = ground arith

  op_imm_agree :
      has_shift_code inst ≡ true
      → plain (Arithmetic.op_imm inst common) ≡ plain (Opcodes.op_imm inst (common_fields pc inst))
  unfolding plain common_fields has_shift_code Arithmetic.op_imm Arithmetic.op_imm_cases
      Opcodes.op_imm Opcodes.op_imm_cases
  op_imm_agree h = ground arith

  op_imm_32_agree :
      has_shift_code inst ≡ true
      → plain (Arithmetic.op_imm_32 inst common)
        ≡ plain (Opcodes.op_imm_32 inst (common_fields pc inst))
  unfolding plain common_fields has_shift_code Arithmetic.op_imm_32 Arithmetic.op_imm_32_cases
      Opcodes.op_imm_32 Opcodes.op_imm_32_cases
  op_imm_32_agree h = ground arith

  op_agree :
      (if f7 inst == 1 then f3 inst == 0 || ltb 3 (f3 inst) else true) ≡ true
      → plain (Arithmetic.op inst common) ≡ plain (Opcodes.op inst (common_fields pc inst))
  unfolding plain common_fields Arithmetic.op Arithmetic.op_cases Arithmetic.mul_cases Opcodes.op
      Opcodes.op_cases Opcodes.mul_cases
  op_agree h = ground arith

  op_32_agree :
      not (f7 inst == 1) ≡ true
      → plain (Arithmetic.op_32 inst common) ≡ plain (Opcodes.op_32 inst (common_fields pc inst))
  unfolding plain common_fields Arithmetic.op_32 Arithmetic.op_32_cases Opcodes.op_32
      Opcodes.op_32_cases
  op_32_agree h = ground arith

  fence_agree : plain (Control.fence common) ≡ plain (Opcodes.fence (common_fields pc inst))
  unfolding plain common_fields Control.fence Opcodes.fence
  fence_agree = refl

  by_opcode_agree :
      is_compared inst ≡ true
      → plain (by_opcode (opcode inst) inst common)
        ≡ plain (Decode.by_opcode (opcode inst) inst (common_fields pc inst))
  unfolding is_compared by_opcode Decode.by_opcode
  by_opcode_agree h =
      agree_if plain (opcode inst == 0x37) h (λ _. lui_agree)
        (λ h.
          agree_if plain (opcode inst == 0x17) h (λ _. auipc_agree)
            (λ h.
              agree_if plain (opcode inst == 0x6F) h (λ _. jal_agree)
                (λ h.
                  agree_if plain (opcode inst == 0x67) h (λ _. jalr_agree)
                    (λ h.
                      agree_if plain (opcode inst == 0x63) h (λ _. branch_agree)
                        (λ h. agree_if plain (opcode inst == 0x03) h load_agree (λ h.
                          agree_if plain (opcode inst == 0x23) h (λ _. store_agree)
                            (λ h. agree_if plain (opcode inst == 0x13) h op_imm_agree (λ h.
                              agree_if plain (opcode inst == 0x1B) h op_imm_32_agree (λ h.
                                agree_if plain (opcode inst == 0x33) h op_agree (λ h.
                                  agree_if plain (opcode inst == 0x3B) h op_32_agree
                                    (λ h. fence_case h)))))))))))
    where
      fence_case :
          (opcode inst == 0x0F) ≡ true
          → plain (
              if opcode inst == 0x0F
              then Control.fence common
              else if opcode inst == 0x73
              then system inst common
              else Opcodes.illegal_2 common)
            ≡ plain (
                if opcode inst == 0x0F
                then Opcodes.fence (common_fields pc inst)
                else if opcode inst == 0x73
                then Opcodes.system inst (common_fields pc inst)
                else Opcodes.unknown (common_fields pc inst))
      fence_case h = ap plain (if_true _ _ h) ∙ fence_agree ∙ sym (ap plain (if_true _ _ h))

plain-raise_illegal : (u : MicroOp) → plain (raise_illegal u) ≡ raise_illegal (plain u)
unfolding plain raise_illegal
plain-raise_illegal u = ground arith

-- For an instruction that is not zero, not the canonical `nop`, and of one of these kinds, `decode_one`
-- gives the micro-operation that `decode` gives, in all but the fields `imm_sel`, `op_fcn`,
-- `debug_inst` and `is_unique`, which only the first fills: lui, auipc, jal, jalr, a branch, a store, a
-- fence, a load with funct3 other than 7, an immediate operation whose funct7 is 0 or 0x20 if its funct3
-- is 5, an operation with funct7 other than 1 or with funct3 0 or from 4 to 7, and a word-sized operation
-- with funct7 other than 1. The SYSTEM opcode is not among them.
pub decode_one_agrees :
    (inst pc : ℕ)
    → inst ≢ 0x13
    → inst ≢ 0
    → is_compared inst ≡ true
    → plain (decode_one inst pc) ≡ plain (decode pc inst)
unfolding decode_one decode
decode_one_agrees inst pc not_nop not_zero h =
    ap plain (if_false _ _ (ne→== inst 0x13 not_nop) ∙ if_false _ _ (ne→== inst 0 not_zero))
    ∙ plain-raise_illegal _
    ∙ ap raise_illegal (by_opcode_agree inst pc h)
    ∙ sym (plain-raise_illegal _)
