-- ===== src/All/Rob/Commit.antt =====
-- `commit_module` of src/boom_all.cpp, lines 1701 to 1750.
use boom.Base.{
  ℕ, ◌+◌, ◌%◌, u8, Bool, true, false, not, ◌&&◌, ◌==◌, ◌!=◌, ltb, if◌then◌else◌, List, set,
}
use boom.Config.{int_phys_regs}
use boom.Types.Codes.{RobState, rob_init, rob_normal, rob_flush, rob_exception, dst_int}
use boom.Types.Uop.{MicroOp}
use boom.State.{RenameState, RenameFreeListState, AluResult}
use boom.All.Rob.{RobModuleState, rob_empty, entry_at, commit_map, leave_head, raise_head}

-- Lines 1709 to 1716: the result goes into its register.
unfoldable pub write_register : AluResult → List ℕ → List ℕ
write_register r int_rf =
    if r.valid
      && r.uop.rename.dst_rtype == dst_int
      && (r.uop.rename.pdst != 0 && ltb r.uop.rename.pdst int_phys_regs)
    then set int_rf r.uop.rename.pdst r.result
    else int_rf

-- Lines 1734 to 1740.
abbrev pub free_stale : RenameFreeListState → ℕ → RenameFreeListState
free_stale f stale =
    let g = record f { busy_table = set f.busy_table stale false } in
    if ltb f.count int_phys_regs
    then record g {
      free_list = set f.free_list f.tail stale;
      tail = u8 ((f.tail + 1) % int_phys_regs);
      count = u8 (f.count + 1);
    }
    else g

-- Lines 1728 to 1742.
unfoldable pub free_dest : RenameState → MicroOp → RenameState
free_dest r u =
    if u.rename.dst_rtype == dst_int
      && u.rename.pdst != 0
      && u.rename.stale_pdst != 0
      && ltb u.rename.stale_pdst int_phys_regs
    then record (commit_map r u) { int_free_list = free_stale r.int_free_list u.rename.stale_pdst }
    else r

abbrev pub is_normal : RobState → Bool
is_normal rob_normal = true
is_normal rob_init = false
is_normal rob_flush = false
is_normal rob_exception = false

-- The exception of this function leaves `xcpt_badvaddr` as it is.
unfoldable pub commit_head : RobModuleState → RenameState → RobModuleState × RenameState
unfolding free_dest
commit_head s r =
    if is_normal s.rob.state
      && not (rob_empty s.rob)
      && (entry_at s.rob s.rob.head).valid
      && not (entry_at s.rob s.rob.head).busy
    then (if (entry_at s.rob s.rob.head).exception
        then (record (raise_head s) { xcpt_badvaddr = s.xcpt_badvaddr }, r)
        else (record s { rob = leave_head s.rob }, free_dest r (entry_at s.rob s.rob.head).uop))
    else (s, r)

-- The buffer, the register file and the rename state after the call.
unfoldable pub commit_module :
    RobModuleState → AluResult → List ℕ → RenameState → RobModuleState × RenameState × List ℕ
unfolding commit_head write_register
commit_module s res int_rf r = let (t, n) = commit_head s r in (t, n, write_register res int_rf)
