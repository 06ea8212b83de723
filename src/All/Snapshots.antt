-- ===== src/All/Snapshots.antt =====
-- The map table and the free list of src/boom_all.cpp, lines 792 to 834.
pub mod Round
use boom.Base.{
  ℕ, zero, suc, ◌+◌, ◌%◌, ◌^◌, ◌<<<◌, bit_and, u8, Bool, true, false, not, ◌||◌, ◌==◌, ◌!=◌, ltb,
  if◌then◌else◌, List, [], ◌∷◌, map, get_or, set, Option, none, some,
}
use boom.Config.{int_phys_regs, max_branch_count}
use boom.State.{RenameMapTableState, RenameFreeListState}

-- `br_snapshots[i][br_tag] = map_table[i]` for each row.
pub save_rows : List (List ℕ) → List ℕ → ℕ → List (List ℕ)
save_rows [] ms t = []
save_rows (r ∷ rs) [] t = r ∷ rs
save_rows (r ∷ rs) (m ∷ ms) t = set r t m ∷ save_rows rs ms t

pub int_map_table_snapshot : RenameMapTableState → ℕ → RenameMapTableState
int_map_table_snapshot mt br_tag =
    if ltb br_tag max_branch_count
    then record mt { br_snapshots = save_rows mt.br_snapshots mt.map_table br_tag }
    else mt

-- The first branch from `b` on that the mask names, with the rounds that are left.
pub first_set : ℕ → ℕ → ℕ → Option ℕ
first_set zero br_mask b = none
first_set (suc n) br_mask b =
    let rest = first_set n br_mask (b + 1) in
    if bit_and br_mask (1 <<< b) != 0 then some b else rest

-- `map_table[i] = br_snapshots[i][b]` for each row.
abbrev pub column : List (List ℕ) → ℕ → List ℕ
column rows b = map (λ (r : List ℕ). get_or r b 0) rows

pub restored_map : RenameMapTableState → Option ℕ → List ℕ
restored_map mt none = mt.committed_map_table
restored_map mt (some b) = column mt.br_snapshots b

pub int_map_table_restore : RenameMapTableState → ℕ → RenameMapTableState
int_map_table_restore mt br_mask = record mt {
  map_table = restored_map mt (first_set max_branch_count br_mask 0);
}

-- The list after the allocation, and the register.
pub int_allocate_pdst : RenameFreeListState → RenameFreeListState × ℕ
int_allocate_pdst fl = if fl.count == 0 then (fl, 0) else (
  record fl {
    head = u8 ((fl.head + 1) % int_phys_regs);
    count = u8 (fl.count + 255);
    busy_table = set fl.busy_table pdst true;
  },
  pdst,
)
  where
    pdst : ℕ
    pdst = get_or fl.free_list fl.head 0

abbrev pub int_is_busy : RenameFreeListState → ℕ → Bool
int_is_busy fl pdst = get_or fl.busy_table pdst false

pub int_free_pdst : RenameFreeListState → ℕ → RenameFreeListState
int_free_pdst fl pdst = if pdst == 0 || not (int_is_busy fl pdst) then fl else record fl {
  busy_table = set fl.busy_table pdst false;
  free_list = set fl.free_list fl.tail pdst;
  tail = u8 ((fl.tail + 1) % int_phys_regs);
  count = u8 (fl.count + 1);
}
