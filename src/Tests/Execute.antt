-- ===== src/Tests/Execute.antt =====
-- Instruction words, decoded and executed.
use boom.Base.{◌+◌, ◌-◌, ◌^◌, ◌≡◌, refl, arith, false, ◌&&◌, ◌==◌, ◌!=◌, u64, sext_32_64}
use boom.Types.Uop.{MicroOp, micro_op_init}
use boom.State.{alu_result_init}
use boom.Decode.Fields.{f3, f7, extract_imm_i, extract_imm_b}
use boom.Decode.Opcodes.{op, op_imm, branch, branch_cases}
use boom.Execute.{by_uopc}
use boom.Execute.Arithmetic.{reference, op_executes}
use boom.Execute.Branches.{holds, branch_executes}
use boom.Execute.Immediate.{op_imm_executes}

-- `sra x3, x1, x2`
op_executes_example :
    let b = op 0x4020D1B3 micro_op_init in
    (by_uopc b.uopc b (2 ^ 64 - 8) 1 alu_result_init).result
    ≡ reference (f3 0x4020D1B3) (f7 0x4020D1B3 == 0x20) (2 ^ 64 - 8) 1
unfolding f7
op_executes_example =
    op_executes 0x4020D1B3 (2 ^ 64 - 8) 1 micro_op_init alu_result_init (omega arith) (omega arith)
      (omega arith)

-- `addi x3, x1, -1`
op_imm_executes_example :
    let b = op_imm 0xFFF08193 micro_op_init in
    (by_uopc b.uopc b 5 0 alu_result_init).result
    ≡ reference
        (f3 0xFFF08193)
        (f3 0xFFF08193 == 5 && f7 0xFFF08193 != 0)
        5
        (sext_32_64 (extract_imm_i 0xFFF08193))
unfolding f3
op_imm_executes_example =
    op_imm_executes 0xFFF08193 5 0 micro_op_init alu_result_init (omega arith) (omega arith)
      (omega arith)

-- `blt x1, x2, 8` at 0x80000000
abbrev at_base : MicroOp
at_base = record micro_op_init { debug_pc = 0x80000000 }

branch_executes_example :
    let b = branch 0x0020C463 at_base in
    let t = by_uopc b.uopc b (2 ^ 64 - 1) 1 alu_result_init in
    (t.mispredict ≡ holds b.ctrl.br_type (2 ^ 64 - 1) 1)
    × (t.redirect_pc ≡ u64 (0x80000000 + sext_32_64 (extract_imm_b 0x0020C463)))
    × (t.result ≡ 0)
    × (t.memory_valid ≡ false)
unfolding branch branch_cases f3
branch_executes_example =
    branch_executes 0x0020C463 (2 ^ 64 - 1) 1 at_base alu_result_init (omega arith) (omega arith)
      refl refl
