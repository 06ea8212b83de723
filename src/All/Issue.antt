-- ===== src/All/Issue.antt =====
-- `issue_module` of src/boom_all.cpp, lines 1157 to 1247, on the queue of All/Queue.
pub mod Ready
use boom.Base.{
  ℕ, Bool, true, false, ◌&&◌, ◌==◌, ltb, if◌then◌else◌, List, [], ◌∷◌, ◌++◌, map, length,
}
use boom.Config.{issue_width}
use boom.Types.Codes.{iq_mem, iq_alu}
use boom.Types.Uop.{MicroOp}
use boom.Types.Entries.{IssueSlotEntry, BranchUpdate}
use boom.State.{IssueQueueState, RenameState, AluResult}
use boom.All.Queue.{iq_is_ready, iq_flush, iq_kill_by_mask, iq_wakeup, iq_dispatch, iq_compress}

abbrev pub iq_fpu : ℕ
iq_fpu = 2

-- The lanes with `issued_valids` come first; `issued_uops` holds their operations alone.
pub record IssueModuleState : Type 0 where
  pub mem_iq : IssueQueueState
  pub alu_iq : IssueQueueState
  pub fpu_iq : IssueQueueState
  pub issued_uops : List MicroOp

abbrev pub on_queues : (IssueQueueState → IssueQueueState) → IssueModuleState → IssueModuleState
on_queues f s = record s { mem_iq = f s.mem_iq; alu_iq = f s.alu_iq; fpu_iq = f s.fpu_iq }

-- Lines 1174 to 1179.
abbrev pub kill_branches : BranchUpdate → IssueModuleState → IssueModuleState
kill_branches b s =
    if b.valid && b.mispredict then on_queues (λ q. iq_kill_by_mask q b.mispredict_mask) s else s

-- Lines 1181 to 1189.
abbrev pub wake_up : AluResult → IssueModuleState → IssueModuleState
wake_up r s = if r.valid then on_queues (λ q. iq_wakeup q r.uop.rename.pdst) s else s

-- Lines 1191 to 1202: a full queue refuses, and the operation is lost.
abbrev pub dispatch_lane : RenameState → IssueModuleState → IssueModuleState
dispatch_lane r s =
    let u = r.renamed_uop in
    if r.renamed_valid
    then (if u.iq_type == iq_mem
        then record s { mem_iq = (iq_dispatch s.mem_iq iq_mem u).0 }
        else if u.iq_type == iq_alu
        then record s { alu_iq = (iq_dispatch s.alu_iq iq_alu u).0 }
        else if u.iq_type == iq_fpu
        then record s { fpu_iq = (iq_dispatch s.fpu_iq iq_fpu u).0 }
        else s)
    else s

-- One turn of the loops of lines 1206 to 1232, on the slot and the lanes issued so far.
unfoldable pub issue_slot : IssueSlotEntry → List MicroOp → IssueSlotEntry × List MicroOp
issue_slot e issued =
    if ltb (length issued) issue_width && iq_is_ready e
    then (record e { granted = true; request = false }, issued ++ e.uop ∷ [])
    else (e, issued)

unfoldable pub issue_slots : List IssueSlotEntry → List MicroOp → List IssueSlotEntry × List MicroOp
unfolding issue_slot
issue_slots [] issued = ([], issued)
issue_slots (e ∷ es) issued =
    let (slot, more) = issue_slot e issued in
    let (slots, all) = issue_slots es more in (slot ∷ slots, all)

abbrev pub issue_queue : IssueQueueState → List MicroOp → IssueQueueState × List MicroOp
issue_queue q issued =
    let (slots, all) = issue_slots q.entries issued in (record q { entries = slots }, all)

-- Lines 1204 to 1232: memory first, then the integer unit, then floating point.
unfoldable pub issue_all : IssueModuleState → IssueModuleState
issue_all s =
    let (mem, after_mem) = issue_queue s.mem_iq s.issued_uops in
    let (alu, after_alu) = issue_queue s.alu_iq after_mem in
    let (fpu, after_fpu) = issue_queue s.fpu_iq after_alu in
    record { mem_iq = mem; alu_iq = alu; fpu_iq = fpu; issued_uops = after_fpu }

-- Lines 1239 to 1244.
abbrev pub drop_killed : IssueQueueState → IssueQueueState
drop_killed q = record q {
  entries =
      map (λ (e : IssueSlotEntry). if e.killed then record e { valid = false } else e) q.entries;
}

-- The queues when the choice begins: lines 1174 to 1202.
unfoldable pub prepared :
    IssueModuleState → RenameState → AluResult → BranchUpdate → IssueModuleState
prepared s r res b = dispatch_lane r (wake_up res (kill_branches b (record s { issued_uops = [] })))

unfoldable pub issue_module :
    IssueModuleState → RenameState → AluResult → BranchUpdate → Bool → IssueModuleState
unfolding prepared issue_all
issue_module s r res b global_flush =
    if global_flush
    then on_queues iq_flush (record s { issued_uops = [] })
    else on_queues (λ q. drop_killed (iq_compress q)) (issue_all (prepared s r res b))
