-- ===== src/All/Rename/Branches.antt =====
-- A branch that `rename_module` of src/boom_all.cpp renames, and its misprediction.
use native.Mathlib.Nat.{pow-le-pow_right}
use boom.Base.{
  ℕ, false, ◌<<<◌, ◌∙◌, ap, sym, refl, ◌||◌, u8, ◌^◌, ◌<◌, ◌≡◌, arith, true, ◌&&◌, List, length,
  length-set,
}
use boom.Types.Uop.{MicroOp, BranchInfo, micro_op_init}
use boom.Types.Entries.{BranchUpdate}
use boom.State.{RenameState, RenameMapTableState, RenameFreeListState}
use boom.All.Branch.{is_control}
use boom.All.Snapshots.{int_map_table_snapshot, int_map_table_restore}
use boom.All.Snapshots.Round.{wide, map_table-int_map_table_snapshot, restore-snapshot}
use boom.All.Rename.{Renamed, look_up, take_dest, with_tag, tag_branch, rename_lane, rename_module}

branch-take_dest :
    (mt : RenameMapTableState) (fl : RenameFreeListState) (u : MicroOp)
    → (take_dest mt fl u).uop.branch ≡ u.branch
unfolding take_dest
branch-take_dest mt fl u = ground arith

br_snapshots-take_dest :
    (mt : RenameMapTableState) (fl : RenameFreeListState) (u : MicroOp)
    → (take_dest mt fl u).map_table.br_snapshots ≡ mt.br_snapshots
unfolding take_dest
br_snapshots-take_dest mt fl u = ground arith

length-take_dest :
    (mt : RenameMapTableState) (fl : RenameFreeListState) (u : MicroOp)
    → length (take_dest mt fl u).map_table.map_table ≡ length mt.map_table
unfolding take_dest
length-take_dest mt fl u = grind (arith, length-set)

power_u8 : (t : ℕ) → t < 8 → u8 (1 <<< t) ≡ 2 ^ t
power_u8 t h = ground (arith, pow-le-pow_right {n = 2} (omega arith) {i = t} {j = 7} (omega arith))

abbrev destined : RenameState → MicroOp → Renamed
destined next u =
    take_dest next.int_map_table next.int_free_list
      (look_up next.int_map_table next.int_free_list u)

is_control-destined :
    (next : RenameState) (u : MicroOp) → is_control (destined next u).uop ≡ is_control u
unfolding look_up
is_control-destined next u =
    ap (λ (b : BranchInfo). b.is_br || b.is_jal || b.is_jalr)
      (branch-take_dest next.int_map_table next.int_free_list
        (look_up next.int_map_table next.int_free_list u))

-- What the tag step leaves of a branch.
tag_control :
    (r : Renamed) (t : ℕ)
    → is_control r.uop ≡ true
    → (tag_branch r t).0
      ≡ record r { map_table = int_map_table_snapshot r.map_table t; uop = with_tag r.uop t }
unfolding tag_branch
tag_control r t h = rw h refl

lane-tagged :
    (next : RenameState) (u : MicroOp) (t : ℕ)
    → is_control u ≡ true
    → (tag_branch (destined next u) t).0 ≡ record (destined next u) {
      map_table = int_map_table_snapshot (destined next u).map_table t;
      uop = with_tag (destined next u).uop t;
    }
lane-tagged next u t h = tag_control (destined next u) t (is_control-destined next u ∙ h)

-- The lane's map after a branch is the map with its own destination, saved under its tag.
lane-snapshot :
    (next : RenameState) (u : MicroOp) (t : ℕ)
    → is_control u ≡ true
    → (rename_lane next u t).0.int_map_table ≡ int_map_table_snapshot (destined next u).map_table t
unfolding rename_lane
lane-snapshot next u t h = ap (λ (r : Renamed). r.map_table) (lane-tagged next u t h)

lane-mask :
    (next : RenameState) (u : MicroOp) (t : ℕ)
    → t < 8
    → is_control u ≡ true
    → (rename_lane next u t).0.renamed_uop.branch.br_mask ≡ 2 ^ t
unfolding rename_lane
lane-mask next u t b h =
    ap (λ (r : Renamed). r.uop.branch.br_mask) (lane-tagged next u t h) ∙ power_u8 t b

-- The state with another map and another committed map.
abbrev pub replaced : RenameState → List ℕ → List ℕ → RenameState
replaced s later committed = record s {
  int_map_table = record s.int_map_table { map_table = later; committed_map_table = committed };
}

abbrev cleared : RenameState → RenameState
cleared current = record current { renamed_valid = false; renamed_uop = micro_op_init }

quiet_cycle :
    (current : RenameState) (u : MicroOp) (t : ℕ) (quiet : BranchUpdate)
    → quiet.valid && quiet.mispredict ≡ false
    → rename_module current true u false quiet t ≡ rename_lane (cleared current) u t
unfolding rename_module
quiet_cycle current u t quiet q = rw q refl

mispredicted_cycle :
    (s : RenameState) (v : MicroOp) (b : BranchUpdate) (tag : ℕ)
    → b.valid && b.mispredict ≡ true
    → (rename_module s false v false b tag).0.int_map_table
      ≡ int_map_table_restore s.int_map_table b.mispredict_mask
unfolding rename_module
mispredicted_cycle s v b tag m = rw m refl

lane_recovers :
    (next : RenameState) (u : MicroOp) (t : ℕ) (later committed : List ℕ)
    → is_control u ≡ true
    → t < 8
    → length next.int_map_table.br_snapshots ≡ length next.int_map_table.map_table
    → wide next.int_map_table.br_snapshots ≡ true
    → (int_map_table_restore
        (replaced (rename_lane next u t).0 later committed).int_map_table
        (rename_lane next u t).0.renamed_uop.branch.br_mask).map_table
      ≡ (rename_lane next u t).0.int_map_table.map_table
lane_recovers next u t later committed h l e w =
    rw (lane-mask next u t l h, lane-snapshot next u t h)
      (restore-snapshot (destined next u).map_table t later committed l
          (ap length (br_snapshots-take_dest next.int_map_table next.int_free_list looked)
            ∙ e
            ∙ sym (length-take_dest next.int_map_table next.int_free_list looked))
          (ap wide (br_snapshots-take_dest next.int_map_table next.int_free_list looked) ∙ w)
        ∙ sym (map_table-int_map_table_snapshot (destined next u).map_table t))
  where
    looked : MicroOp
    looked = look_up next.int_map_table next.int_free_list u

-- A valid branch that is renamed with tag `t`, and later, whatever the map and the committed map became in
-- between, a cycle that reports its misprediction alone and decodes nothing: the map is again the one that
-- the branch left, its own destination included.
pub rename_module_recovers :
    (current : RenameState) (u v : MicroOp) (t tag : ℕ) (quiet b : BranchUpdate)
    (later committed : List ℕ)
    → is_control u ≡ true
    → t < 8
    → length current.int_map_table.br_snapshots ≡ length current.int_map_table.map_table
    → wide current.int_map_table.br_snapshots ≡ true
    → quiet.valid && quiet.mispredict ≡ false
    → b.valid && b.mispredict ≡ true
    → b.mispredict_mask ≡ (rename_module current true u false quiet t).0.renamed_uop.branch.br_mask
    → (rename_module
        (replaced (rename_module current true u false quiet t).0 later committed)
        false
        v
        false
        b
        tag).0.int_map_table.map_table
      ≡ (rename_module current true u false quiet t).0.int_map_table.map_table
rename_module_recovers current u v t tag quiet b later committed h l e w q m k =
    ap (λ (mt : RenameMapTableState). mt.map_table)
      (mispredicted_cycle (replaced (rename_module current true u false quiet t).0 later committed)
        v b tag m)
    ∙ rw (k, quiet_cycle current u t quiet q)
        (lane_recovers (cleared current) u t later committed h l e w)
