-- ===== src/All/Snapshots/Round.antt =====
-- A snapshot of src/boom_all.cpp brings its map back, and a register is released once.
use boom.Base.{
  ℕ, zero, suc, ◌^◌, ◌<◌, ◌≡◌, refl, ap₂, arith, Bool, true, false, ◌&&◌, leb, List, [], ◌∷◌,
  length, get_or-set_self, some, lt→ltb,
}
use boom.State.{RenameMapTableState, RenameFreeListState}
use boom.All.Snapshots.{
  save_rows, int_map_table_snapshot, first_set, column, restored_map, int_map_table_restore,
  int_free_pdst,
}

-- Every row has a place for each branch.
unfoldable pub wide : List (List ℕ) → Bool
wide [] = true
wide (r ∷ rs) = leb 8 (length r) && wide rs

column-save_rows :
    (rs : List (List ℕ)) (ms : List ℕ) (t : ℕ)
    → t < 8
    → length rs ≡ length ms
    → wide rs ≡ true
    → column (save_rows rs ms t) t ≡ ms
unfolding save_rows wide
column-save_rows [] [] t h e w = refl
column-save_rows [] (m ∷ ms) t h e w = absurd (omega arith)
column-save_rows (r ∷ rs) [] t h e w = absurd (omega arith)
column-save_rows (r ∷ rs) (m ∷ ms) t h e w =
    ap₂ ◌∷◌ (get_or-set_self r t m 0 (ground arith))
      (column-save_rows rs ms t h (omega arith) (ground arith))

first_set_power : (t : ℕ) → t < 8 → first_set 8 (2 ^ t) 0 ≡ some t
unfolding first_set
first_set_power zero h = refl
first_set_power (suc zero) h = refl
first_set_power (suc (suc zero)) h = refl
first_set_power (suc (suc (suc zero))) h = refl
first_set_power (suc (suc (suc (suc zero)))) h = refl
first_set_power (suc (suc (suc (suc (suc zero))))) h = refl
first_set_power (suc (suc (suc (suc (suc (suc zero)))))) h = refl
first_set_power (suc (suc (suc (suc (suc (suc (suc zero))))))) h = refl
first_set_power (suc (suc (suc (suc (suc (suc (suc (suc t)))))))) h = absurd (omega arith)

pub map_table-int_map_table_snapshot :
    (mt : RenameMapTableState) (t : ℕ) → (int_map_table_snapshot mt t).map_table ≡ mt.map_table
unfolding int_map_table_snapshot
map_table-int_map_table_snapshot mt t = ground arith

-- A snapshot under a tag, and later a restore for that branch alone, give back the map of the snapshot,
-- whatever the map and the committed map became in between.
pub restore-snapshot :
    (mt : RenameMapTableState) (t : ℕ) (later committed : List ℕ)
    → t < 8
    → length mt.br_snapshots ≡ length mt.map_table
    → wide mt.br_snapshots ≡ true
    → (int_map_table_restore
        (record (int_map_table_snapshot mt t) {
          map_table = later;
          committed_map_table = committed;
        })
        (2 ^ t)).map_table
      ≡ mt.map_table
unfolding int_map_table_restore int_map_table_snapshot restored_map
restore-snapshot mt t later committed h e w =
    rw (first_set_power t h, lt→ltb t 8 h) (column-save_rows mt.br_snapshots mt.map_table t h e w)

-- A second release of the same register changes nothing.
pub int_free_pdst_once :
    (fl : RenameFreeListState) (pdst : ℕ)
    → pdst < length fl.busy_table
    → int_free_pdst (int_free_pdst fl pdst) pdst ≡ int_free_pdst fl pdst
unfolding int_free_pdst
int_free_pdst_once fl pdst h = ground (arith, get_or-set_self fl.busy_table pdst false false h)
