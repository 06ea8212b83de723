-- ===== src/All/Rename.antt =====
-- `rename_module` of src/boom_all.cpp. Its static `next_br_tag` is passed in and out. The fields
-- `renamed_uop` and `renamed_valid` of a `RenameState` are the arrays of one lane.
pub mod Branches
use boom.Base.{
  ℕ, ◌+◌, ◌%◌, ◌<<<◌, u8, Bool, true, false, ◌&&◌, ◌||◌, ◌==◌, ◌!=◌, if◌then◌else◌, get_or, set,
}
use boom.Config.{max_branch_count}
use boom.Types.Codes.{dst_int, dst_x0}
use boom.Types.Uop.{MicroOp, micro_op_init}
use boom.Types.Entries.{BranchUpdate}
use boom.State.{RenameState, RenameMapTableState, RenameFreeListState}
use boom.All.Branch.{is_control}
use boom.All.Snapshots.{
  int_map_table_snapshot, int_map_table_restore, int_allocate_pdst, int_is_busy,
}

-- Lines 861 to 877: the sources and the old destination, with their busy bits.
unfoldable pub look_up : RenameMapTableState → RenameFreeListState → MicroOp → MicroOp
look_up mt fl u = record u {
  rename = record u.rename {
    prs1 = mapped u.rename.lrs1;
    prs2 = mapped u.rename.lrs2;
    prs3 = mapped u.rename.lrs3;
    stale_pdst = mapped u.rename.ldst;
    prs1_busy = int_is_busy fl (mapped u.rename.lrs1);
    prs2_busy = int_is_busy fl (mapped u.rename.lrs2);
    prs3_busy = int_is_busy fl (mapped u.rename.lrs3);
  };
}
  where
    mapped : ℕ → ℕ
    mapped r = get_or mt.map_table r 0

-- What the lane changes besides the operation.
pub record Renamed : Type 0 where
  pub map_table : RenameMapTableState
  pub free_list : RenameFreeListState
  pub uop : MicroOp

-- Lines 879 to 893: the new destination, whether a register is free or not.
unfoldable pub take_dest : RenameMapTableState → RenameFreeListState → MicroOp → Renamed
take_dest mt fl u =
    if u.rename.dst_rtype == dst_int && u.rename.ldst != 0
    then (let (taken, pdst) = int_allocate_pdst fl in
        record {
          map_table = record mt { map_table = set mt.map_table u.rename.ldst pdst };
          free_list = taken;
          uop = record u { rename = record u.rename { pdst = pdst } };
        })
    else if u.rename.dst_rtype == dst_x0
    then record {
      map_table = mt;
      free_list = fl;
      uop = record u { rename = record u.rename { pdst = 0; ldst = 0 } };
    }
    else record {
      map_table = mt;
      free_list = fl;
      uop = record u { rename = record u.rename { pdst = 0 } };
    }

abbrev pub with_tag : MicroOp → ℕ → MicroOp
with_tag u tag = record u { branch = record u.branch { br_tag = tag; br_mask = u8 (1 <<< tag) } }

-- Lines 895 to 905: a branch takes the next tag and a snapshot; the tag after it.
unfoldable pub tag_branch : Renamed → ℕ → Renamed × ℕ
tag_branch r next_br_tag =
    if is_control r.uop
    then (
      record r {
        map_table = int_map_table_snapshot r.map_table next_br_tag;
        uop = with_tag r.uop next_br_tag;
      },
      u8 ((next_br_tag + 1) % max_branch_count),
    )
    else (r, next_br_tag)

-- Lines 857 to 908, for a valid operation.
unfoldable pub rename_lane : RenameState → MicroOp → ℕ → RenameState × ℕ
unfolding look_up take_dest tag_branch
rename_lane next u next_br_tag =
    let (r, tag) =
      tag_branch
        (take_dest next.int_map_table next.int_free_list
          (look_up next.int_map_table next.int_free_list u))
        next_br_tag in
    (
      record next {
        int_map_table = r.map_table;
        int_free_list = r.free_list;
        renamed_uop = r.uop;
        renamed_valid = true;
      },
      tag,
    )

unfoldable pub rename_module :
    RenameState → Bool → MicroOp → Bool → BranchUpdate → ℕ → RenameState × ℕ
unfolding rename_lane
rename_module current dec_valid dec_uop global_flush brupdate next_br_tag =
    if global_flush
    then (cleared, next_br_tag)
    else if dec_valid
    then rename_lane restored dec_uop next_br_tag
    else (restored, next_br_tag)
  where
    cleared : RenameState
    cleared = record current { renamed_valid = false; renamed_uop = micro_op_init }

    restored : RenameState
    restored =
        if brupdate.valid && brupdate.mispredict
        then record cleared {
          int_map_table = int_map_table_restore cleared.int_map_table brupdate.mispredict_mask;
        }
        else cleared
