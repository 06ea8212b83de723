-- ===== src/All/Rob/Shape.antt =====
-- The array and the head of the reorder buffer in src/boom_all.cpp: every part of `rob_module` in the
-- case ROB_NORMAL keeps the head an index of the array.
use boom.Base.{ℕ, ◌<◌, ◌≡◌, ◌∙◌, arith, not, ◌||◌, length, length-set, length-map, set, if_either}
use boom.Types.Uop.{MicroOp}
use boom.Types.Entries.{RobEntry, BranchUpdate}
use boom.State.{RobInternalState, RenameState, AluResult}
use boom.All.Rob.{
  RobModuleState, rob_empty, entry_at, allocate_lane, allocated, finish_lane, retire_head,
  raise_head, leave_head, kill_all, retired, flush_killed, kill_entry,
}

-- The array has its length and the head is an index of it.
pub record HasShape (rob : RobInternalState) : Type 0 where
  pub entries_length : length rob.entries ≡ 32
  pub head_in : rob.head < 32

-- A write into the array, and another tail, keep the shape.
set-HasShape :
    {rob : RobInternalState} (i : ℕ) (e : RobEntry)
    → HasShape rob
    → HasShape (record rob { entries = set rob.entries i e })
set-HasShape {rob} i e v = record {
  entries_length = length-set rob.entries i e ∙ v.entries_length;
  head_in = v.head_in;
}

allocated-HasShape :
    (u : MicroOp) {rob : RobInternalState} → HasShape rob → HasShape (allocated rob u)
allocated-HasShape u {rob} v = record {
  entries_length = length-set rob.entries rob.tail _ ∙ v.entries_length;
  head_in = v.head_in;
}

leave_head-HasShape : {rob : RobInternalState} → HasShape rob → HasShape (leave_head rob)
leave_head-HasShape {rob} v = record {
  entries_length = length-set rob.entries rob.head _ ∙ v.entries_length;
  head_in = omega arith;
}

pub allocate-HasShape :
    (r : RenameState) {rob : RobInternalState} → HasShape rob → HasShape (allocate_lane r rob)
unfolding allocate_lane
allocate-HasShape r v = if_either HasShape _ (allocated-HasShape r.renamed_uop v) v

pub finish-HasShape :
    (r : AluResult) {rob : RobInternalState} → HasShape rob → HasShape (finish_lane r rob)
unfolding finish_lane
finish-HasShape r v = if_either HasShape _ (set-HasShape r.uop.queue.rob_idx _ v) v

retire_cases {ℓ} :
    (P : RobModuleState × RenameState → Type ℓ) (s : RobModuleState) (r : RenameState)
    → P (s, r)
    → P (raise_head s, r)
    → P (retired s r)
    → P (retire_head s r)
unfolding retire_head
retire_cases P s r kept raised left =
    if_either P (rob_empty s.rob || not (entry_at s.rob s.rob.head).valid) kept (
      if_either P (entry_at s.rob s.rob.head).busy kept
        (if_either P (entry_at s.rob s.rob.head).exception raised left))

pub retire-HasShape :
    (s : RobModuleState) (r : RenameState) → HasShape s.rob → HasShape (retire_head s r).0.rob
retire-HasShape s r v =
    retire_cases (λ q. HasShape q.0.rob) s r v
      record { entries_length = v.entries_length; head_in = v.head_in } (leave_head-HasShape v)

pub kill_all-HasShape :
    (mask : ℕ) {rob : RobInternalState} → HasShape rob → HasShape (kill_all mask rob)
kill_all-HasShape mask {rob} v = record {
  entries_length = length-map (kill_entry mask) rob.entries ∙ v.entries_length;
  head_in = v.head_in;
}

pub flush-HasShape :
    (b : BranchUpdate) {rob : RobInternalState} → HasShape rob → HasShape (flush_killed b rob)
unfolding flush_killed
flush-HasShape b v = if_either HasShape _ (kill_all-HasShape b.mispredict_mask v) v
