-- ===== src/All/Rob.antt =====
-- The reorder buffer of src/boom_all.cpp: `rob_full` to `rob_module`, lines 916 to 1056. DISPATCH_WIDTH
-- is 1, so each array of lanes is its element.
pub mod Shape
pub mod Cycles
pub mod Stuck
pub mod Commit
use boom.Base.{
  ℕ, ◌+◌, ◌%◌, bit_and, u8, Bool, true, false, not, ◌&&◌, ◌||◌, ◌==◌, ◌!=◌, ltb, if◌then◌else◌,
  List, map, get_or, set,
}
use boom.Config.{rob_depth, int_phys_regs}
use boom.Types.Codes.{RobState, rob_init, rob_normal, rob_flush, rob_exception, dst_int}
use boom.Types.Uop.{MicroOp}
use boom.Types.Entries.{RobEntry, rob_entry_init, BranchUpdate}
use boom.State.{RobInternalState, RenameState, RenameFreeListState, AluResult}
use boom.Rob.{with_rob_idx}

-- The buffer of this file: `rob` holds the fields that the header's `RobInternalState` also has.
pub record RobModuleState : Type 0 where
  pub rob : RobInternalState
  pub flush_frontend : Bool
  pub xcpt_uop : MicroOp
  pub xcpt_badvaddr : ℕ
  pub pnr : ℕ

abbrev pub rob_full : RobInternalState → Bool
rob_full rob = rob.head == rob.tail && rob.maybe_full

abbrev pub rob_empty : RobInternalState → Bool
rob_empty rob = rob.head == rob.tail && not rob.maybe_full

abbrev pub entry_at : RobInternalState → ℕ → RobEntry
entry_at rob i = get_or rob.entries i rob_entry_init

-- Lines 943 to 950: the entry keeps its `exception` of before.
abbrev pub allocated : RobInternalState → MicroOp → RobInternalState
allocated rob u = record rob {
  entries = set rob.entries rob.tail (record (entry_at rob rob.tail) {
    valid = true;
    busy = true;
    unsafe = false;
    uop = with_rob_idx u rob.tail;
  });
  tail = u8 ((rob.tail + 1) % rob_depth);
  maybe_full = if u8 ((rob.tail + 1) % rob_depth) == rob.head then true else rob.maybe_full;
}

unfoldable pub allocate_lane : RenameState → RobInternalState → RobInternalState
allocate_lane r rob =
    if r.renamed_valid && not (rob_full rob) then allocated rob r.renamed_uop else rob

abbrev pub finished : AluResult → RobEntry → RobEntry
finished r e =
    if r.exception
    then record e {
      busy = false;
      exception = true;
      uop = record e.uop { exception = true; exc_cause = r.exc_cause };
    }
    else record e { busy = false }

abbrev pub finish_at : AluResult → ℕ → RobInternalState → RobInternalState
finish_at r i rob = record rob { entries = set rob.entries i (finished r (entry_at rob i)) }

-- Lines 954 to 968.
unfoldable pub finish_lane : AluResult → RobInternalState → RobInternalState
finish_lane r rob =
    if r.valid && (ltb r.uop.queue.rob_idx rob_depth && (entry_at rob r.uop.queue.rob_idx).valid)
    then finish_at r r.uop.queue.rob_idx rob
    else rob

abbrev pub commit_map : RenameState → MicroOp → RenameState
commit_map r u = record r {
  int_map_table = record r.int_map_table {
    committed_map_table = set r.int_map_table.committed_map_table u.rename.ldst u.rename.pdst;
  };
}

-- Lines 986 to 995: `int_free_pdst_inline` does nothing.
abbrev pub commit_dest : RenameState → MicroOp → RenameState
commit_dest r u =
    if u.rename.dst_rtype == dst_int
      && u.rename.pdst != 0
      && u.rename.stale_pdst != 0
      && u.rename.stale_pdst != u.rename.pdst
    then commit_map r u
    else r

-- Lines 997 to 999.
abbrev pub leave_head : RobInternalState → RobInternalState
leave_head rob = record rob {
  entries = set rob.entries rob.head (record (entry_at rob rob.head) { valid = false });
  head = u8 ((rob.head + 1) % rob_depth);
  maybe_full = false;
}

-- Lines 979 to 982.
abbrev pub raise_head : RobModuleState → RobModuleState
raise_head s = record s {
  rob = record s.rob { state = rob_exception };
  xcpt_uop = (entry_at s.rob s.rob.head).uop;
  xcpt_badvaddr = 0;
  flush_frontend = true;
}

-- Lines 984 to 1000.
abbrev pub retired : RobModuleState → RenameState → RobModuleState × RenameState
retired s r = (record s { rob = leave_head s.rob }, commit_dest r (entry_at s.rob s.rob.head).uop)

-- Lines 970 to 1002.
unfoldable pub retire_head : RobModuleState → RenameState → RobModuleState × RenameState
retire_head s r =
    if rob_empty s.rob || not (entry_at s.rob s.rob.head).valid
    then (s, r)
    else if (entry_at s.rob s.rob.head).busy
    then (s, r)
    else if (entry_at s.rob s.rob.head).exception
    then (raise_head s, r)
    else retired s r

abbrev pub kill_entry : ℕ → RobEntry → RobEntry
kill_entry kill_mask e =
    if e.valid && bit_and e.uop.branch.br_mask kill_mask != 0
    then record e { valid = false; busy = false }
    else e

-- Lines 1006 to 1027.
abbrev pub kill_all : ℕ → RobInternalState → RobInternalState
kill_all kill_mask rob = record rob {
  entries = map (kill_entry kill_mask) rob.entries;
  tail = u8 ((rob.head + 1) % rob_depth);
  maybe_full = false;
  state = rob_normal;
}

-- Lines 1004 to 1028.
unfoldable pub flush_killed : BranchUpdate → RobInternalState → RobInternalState
flush_killed b rob = if b.valid && b.mispredict then kill_all b.mispredict_mask rob else rob

abbrev pub clear_entry : RobEntry → RobEntry
clear_entry e = record e { valid = false; busy = false; exception = false }

-- Lines 1033 to 1045.
abbrev pub clean_up : RobModuleState → RobModuleState
clean_up s = record s {
  rob = record s.rob {
    entries = map clear_entry s.rob.entries;
    head = 0;
    tail = 0;
    maybe_full = false;
    state = rob_normal;
  };
  pnr = 0;
}

-- The case ROB_NORMAL, lines 939 to 1031.
unfoldable pub work :
    RobModuleState → AluResult → BranchUpdate → RenameState → RobModuleState × RenameState
unfolding allocate_lane finish_lane retire_head flush_killed
work s res b r =
    let (t, n) = retire_head (record s { rob = finish_lane res (allocate_lane r s.rob) }) r in
    (record t { rob = flush_killed b t.rob }, n)

unfoldable pub by_state :
    RobState
    → RobModuleState
    → AluResult
    → BranchUpdate
    → RenameState
    → RobModuleState × RenameState
unfolding work
by_state rob_init s res b r = (record s { rob = record s.rob { state = rob_normal } }, r)
by_state rob_normal s res b r = work s res b r
by_state rob_flush s res b r = (clean_up s, r)
by_state rob_exception s res b r = (record s { flush_frontend = true }, r)

unfoldable pub rob_module :
    RobModuleState → AluResult → BranchUpdate → RenameState → RobModuleState × RenameState
unfolding by_state
rob_module s res b r = by_state s.rob.state (record s { flush_frontend = false }) res b r
