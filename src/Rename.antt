-- ===== src/Rename.antt =====
-- src/rename.cpp: logical to physical registers, one lane.
pub mod FreeList
use boom.Base.{
  ℕ, ◌+◌, ◌%◌, u8, Bool, true, false, ◌&&◌, ◌==◌, ◌!=◌, ltb, if◌then◌else◌, map, replicate, get_or,
  set,
}
use boom.Config.{int_phys_regs, max_branch_count}
use boom.Types.Codes.{dst_int}
use boom.Types.Uop.{MicroOp, micro_op_init}
use boom.State.{BoomCoreState, RenameState, RenameMapTableState, RenameFreeListState}

-- Lines 17 to 22: after a mispredict every mapping is the committed one, in each snapshot too.
pub restore_map : RenameMapTableState → RenameMapTableState
restore_map mt = record mt {
  map_table = mt.committed_map_table;
  br_snapshots = map (λ (p : ℕ). replicate max_branch_count p) mt.committed_map_table;
}

-- The physical register that the next allocation takes.
abbrev pub next_free : RenameFreeListState → ℕ
next_free fl = get_or fl.free_list fl.head 0

unfoldable pub allocate : RenameFreeListState → RenameFreeListState
allocate fl = record fl {
  head = u8 ((fl.head + 1) % int_phys_regs);
  count = u8 (fl.count + 255);
  busy_table = set fl.busy_table (next_free fl) true;
}

-- Lines 28 to 33: the sources and the old destination.
pub map_sources : RenameMapTableState → MicroOp → MicroOp
map_sources mt u = record u {
  rename = record u.rename {
    prs1 = get_or mt.map_table u.rename.lrs1 0;
    prs2 = get_or mt.map_table u.rename.lrs2 0;
    stale_pdst = get_or mt.map_table u.rename.ldst 0;
    prs1_busy = false;
    prs2_busy = false;
  };
}

-- The test of line 35: the operation writes an integer register other than x0.
abbrev pub writes_int : MicroOp → Bool
writes_int u = u.rename.dst_rtype == dst_int && u.rename.ldst != 0

-- Lines 35 to 43: the new destination, taken from the free list if that holds one.
pub rename_dest : RenameState → MicroOp → RenameState
rename_dest ren u =
    if writes_int u
    then if ltb 0 ren.int_free_list.count
      then record ren {
        int_map_table = record ren.int_map_table {
          map_table = set ren.int_map_table.map_table u.rename.ldst (next_free ren.int_free_list);
        };
        int_free_list = allocate ren.int_free_list;
        renamed_uop = record u { rename = record u.rename { pdst = next_free ren.int_free_list } };
        renamed_valid = true;
      }
      else record ren { renamed_uop = u; renamed_valid = true }
    else record ren {
      renamed_uop = record u { rename = record u.rename { pdst = 0; ldst = 0 } };
      renamed_valid = true;
    }

unfoldable pub rename_module : BoomCoreState → BoomCoreState
rename_module s = if s.global_flush then record s { rename = cleared } else record s {
  rename =
      if s.decode.dec_valid
      then rename_dest restored (map_sources restored.int_map_table s.decode.dec_uop)
      else restored;
}
  where
    cleared : RenameState
    cleared = record s.rename { renamed_valid = false; renamed_uop = micro_op_init }

    restored : RenameState
    restored =
        if s.brupdate.valid && s.brupdate.mispredict
        then record cleared { int_map_table = restore_map cleared.int_map_table }
        else cleared
