-- ===== src/Tests/All.antt =====
-- The parts of src/boom_all.cpp at concrete inputs.
use boom.Base.{
  ◌^◌, ◌≡◌, refl, arith, true, false, ◌&&◌, ◌==◌, ltb, if◌then◌else◌, [], ◌∷◌, ◌++◌, length, set,
  replicate,
}
use boom.Types.Uop.{MicroOp, micro_op_init}
use boom.State.{csr_state_init, rename_state_init, IssueQueueState, issue_queue_state_init}
use boom.Issue.{waiting}
use boom.All.Csr.{csr_read, csr_rw_op}
use boom.All.Csr.Access.{is_writable, operand, combine, has_effect, csr_rw_op_lem}
use boom.All.Snapshots.Round.{wide}
use boom.All.Rename.{look_up, take_dest, tag_branch, rename_lane, rename_module}
use boom.All.Rename.Branches.{replaced, rename_module_recovers}
use boom.Types.Codes.{iq_alu, dst_int}
use boom.Types.Entries.{BranchUpdate, branch_update_init}
use boom.All.Queue.{slot_of, iq_compress, iq_dispatch}
use boom.All.Queue.Fifo.{iq_dispatch_refines}

-- `csrrs x0, mie, x1`
abbrev set_mie : MicroOp
set_mie = record micro_op_init { uopc = 68; csr_addr = 0x304 }

csr_rw_op_lem_example :
    ((csr_rw_op csr_state_init set_mie 0x88).1 ≡ csr_read csr_state_init 0x304)
    × (csr_read (csr_rw_op csr_state_init set_mie 0x88).0 0x304 ≡ (
        if has_effect set_mie (operand set_mie 0x88) && (0x304 == 0x304 && is_writable 0x304)
        then combine set_mie (csr_read csr_state_init 0x304) (operand set_mie 0x88)
        else csr_read csr_state_init 0x304))
csr_rw_op_lem_example = csr_rw_op_lem csr_state_init set_mie 0x88 0x304 (omega arith) (omega arith)

-- A `jal` to x1 under tag 5, and its misprediction.
abbrev jal_op : MicroOp
jal_op = record micro_op_init {
  branch = record micro_op_init.branch { is_jal = true };
  rename = record micro_op_init.rename { ldst = 1; dst_rtype = dst_int };
}

abbrev jal_fails : BranchUpdate
jal_fails = record branch_update_init { valid = true; mispredict = true; mispredict_mask = 2 ^ 5 }

rename_module_recovers_example :
    (rename_module
      (replaced
        (rename_module rename_state_init true jal_op false branch_update_init 5).0
        (replicate 32 7)
        (replicate 32 9))
      false
      jal_op
      false
      jal_fails
      6).0.int_map_table.map_table
    ≡ (rename_module rename_state_init true jal_op false branch_update_init
        5).0.int_map_table.map_table
unfolding wide rename_module rename_lane look_up take_dest tag_branch
rename_module_recovers_example =
    rename_module_recovers rename_state_init jal_op jal_op 5 6 branch_update_init jal_fails
      (replicate 32 7) (replicate 32 9) refl (omega arith) refl refl refl refl refl

abbrev alu_op : MicroOp
alu_op = record micro_op_init { uopc = 1; iq_type = iq_alu }

-- One operation at index 2, which waits for its first source.
abbrev one_waiting : IssueQueueState
one_waiting = record issue_queue_state_init {
  entries = set issue_queue_state_init.entries 2 (record (slot_of alu_op) { prs1_busy = true });
}

iq_dispatch_refines_example :
    let taken = alu_op.iq_type == iq_alu && ltb (length (waiting one_waiting.entries)) 8 in
    let (iq', answer) = iq_dispatch (iq_compress one_waiting) iq_alu alu_op in
    (answer ≡ taken)
    × (waiting iq'.entries ≡ (
        if taken
        then waiting one_waiting.entries ++ slot_of alu_op ∷ []
        else waiting one_waiting.entries))
iq_dispatch_refines_example = iq_dispatch_refines one_waiting iq_alu alu_op refl
