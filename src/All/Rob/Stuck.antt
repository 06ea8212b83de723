-- ===== src/All/Rob/Stuck.antt =====
-- The misprediction of `rob_module` in src/boom_all.cpp, line 1025, and what follows it.
use boom.Base.{
  ℕ, ◌<◌, ◌≡◌, refl, ap, ◌∙◌, sym, subst, arith, Bool, true, false, not, ◌&&◌, ◌||◌, ltb, List, [],
  ◌∷◌, map, get_or, get_or-map, if_either, if_true, if◌then◌else◌, get_or-set_ne,
}
use boom.Types.Codes.{rob_normal}
use boom.Types.Uop.{MicroOp}
use boom.Types.Entries.{RobEntry, rob_entry_init, BranchUpdate}
use boom.State.{RobInternalState, RenameState, AluResult}
use boom.All.Rob.Shape.{
  HasShape, allocate-HasShape, finish-HasShape, retire-HasShape, kill_all-HasShape, flush-HasShape,
}
use boom.All.Rob.Cycles.{Inputs, cycle, cycles, with_table, module_works}
use boom.All.Rob.{
  RobModuleState, rob_empty, rob_full, entry_at, allocate_lane, allocated, finish_lane, retire_head,
  kill_all, finish_at, flush_killed, kill_entry, work,
}

-- The head is `h`, the buffer is not empty, and there is no valid entry at the head.
pub record IsStuck (h : ℕ) (rob : RobInternalState) : Type 0 where
  pub normal : rob.state ≡ rob_normal
  pub at_head : rob.head ≡ h
  pub tail_in : rob.tail < 32
  pub not_empty : rob_empty rob ≡ false
  pub invalid : (get_or rob.entries h rob_entry_init).valid ≡ false

if_split {ℓ κ} :
    {A : Type ℓ} (P : A → Type κ) (b : Bool) {x y : A}
    → (b ≡ true → P x)
    → (b ≡ false → P y)
    → P (if b then x else y)
if_split P true p q = p refl
if_split P false p q = q refl

allocated-IsStuck :
    {h : ℕ} (u : MicroOp) {rob : RobInternalState}
    → IsStuck h rob
    → rob_full rob ≡ false
    → IsStuck h (allocated rob u)
allocated-IsStuck {h} u {rob} v room = record {
  normal = v.normal;
  at_head = v.at_head;
  tail_in = omega arith;
  not_empty = ground (arith, v.not_empty, v.at_head, v.tail_in, room);
  invalid =
      ap (λ (e : RobEntry). e.valid)
        (get_or-set_ne rob.entries rob.tail h _ rob_entry_init
          (λ e. ground (arith, v.not_empty, v.at_head, room, e)))
      ∙ v.invalid;
}

allocate-IsStuck :
    {h : ℕ} (r : RenameState) {rob : RobInternalState}
    → IsStuck h rob
    → IsStuck h (allocate_lane r rob)
unfolding allocate_lane
allocate-IsStuck {h} r {rob} v =
    if_split (IsStuck h) (r.renamed_valid && not (rob_full rob))
      (λ c. allocated-IsStuck r.renamed_uop v (ground (arith, c))) (λ c. v)

finish_at-IsStuck :
    {h : ℕ} (r : AluResult) (i : ℕ) {rob : RobInternalState}
    → IsStuck h rob
    → (entry_at rob i).valid ≡ true
    → IsStuck h (finish_at r i rob)
finish_at-IsStuck {h} r i {rob} v there = record {
  normal = v.normal;
  at_head = v.at_head;
  tail_in = v.tail_in;
  not_empty = v.not_empty;
  invalid =
      ap (λ (e : RobEntry). e.valid) (get_or-set_ne rob.entries i h _ rob_entry_init (λ e. cc e))
      ∙ v.invalid;
}

finish-IsStuck :
    {h : ℕ} (r : AluResult) {rob : RobInternalState} → IsStuck h rob → IsStuck h (finish_lane r rob)
unfolding finish_lane
finish-IsStuck {h} r {rob} v =
    if_split (IsStuck h)
      (r.valid && (ltb r.uop.queue.rob_idx 32 && (entry_at rob r.uop.queue.rob_idx).valid))
      (λ c. finish_at-IsStuck r r.uop.queue.rob_idx v (ground (arith, c))) (λ c. v)

kill_entry_invalid : (mask : ℕ) (e : RobEntry) → e.valid ≡ false → (kill_entry mask e).valid ≡ false
kill_entry_invalid mask e dead = ground (arith, dead)

-- Any entry that is not valid at the head before the flush is not valid after it, and the buffer is
-- not empty.
kill_all-IsStuck :
    (mask : ℕ) {rob : RobInternalState}
    → HasShape rob
    → (get_or (map (kill_entry mask) rob.entries) rob.head rob_entry_init).valid ≡ false
    → IsStuck rob.head (kill_all mask rob)
kill_all-IsStuck mask {rob} v dead = record {
  normal = refl;
  at_head = refl;
  tail_in = omega arith;
  not_empty = ground (arith, v.head_in);
  invalid = dead;
}

retire_stuck :
    {h : ℕ} (s : RobModuleState) (r : RenameState) → IsStuck h s.rob → retire_head s r ≡ (s, r)
unfolding retire_head
retire_stuck {h} s r v =
    if_true {b = rob_empty s.rob || not (entry_at s.rob s.rob.head).valid} _ _
      (rw v.at_head (rw v.invalid (ground arith)))

-- Both at once.
Holds : ℕ → RobInternalState → Type 0
Holds h rob = HasShape rob × IsStuck h rob

flush-IsStuck :
    {h : ℕ} (b : BranchUpdate) {rob : RobInternalState}
    → HasShape rob
    → IsStuck h rob
    → IsStuck h (flush_killed b rob)
unfolding flush_killed
flush-IsStuck {h} b {rob} w v =
    if_either (IsStuck h) _
      (subst (λ i. IsStuck i (kill_all b.mispredict_mask rob)) v.at_head
        (kill_all-IsStuck b.mispredict_mask w (
          ap (λ (e : RobEntry). e.valid)
            (get_or-map (kill_entry b.mispredict_mask) rob.entries rob.head rob_entry_init)
          ∙ kill_entry_invalid b.mispredict_mask (entry_at rob rob.head) (rw v.at_head v.invalid))))
      v

-- What the commit of a cycle sees.
abbrev pub offered : RobModuleState → AluResult → RenameState → RobModuleState
offered s r n = record s { rob = finish_lane r (allocate_lane n s.rob) }

work-Holds :
    {h : ℕ} (s : RobModuleState) (r : AluResult) (b : BranchUpdate) (n : RenameState)
    → HasShape s.rob
    → IsStuck h s.rob
    → Holds h (work s r b n).0.rob × ((work s r b n).1 ≡ n)
unfolding Holds work
work-Holds {h} s r b n w v =
    let shape : HasShape (offered s r n).rob = finish-HasShape r (allocate-HasShape n w) in
    let stuck : IsStuck h (offered s r n).rob = finish-IsStuck r (allocate-IsStuck n v) in
    rw (retire_stuck (offered s r n) n stuck)
      ((flush-HasShape b shape, flush-IsStuck b shape stuck), refl)

cycle-Holds :
    (h : ℕ) (i : Inputs) (s : RobModuleState) (table : List ℕ)
    → Holds h s.rob
    → Holds h (cycle i s table).0.rob × ((cycle i s table).1 ≡ table)
unfolding cycle Holds
cycle-Holds h i s table (w, v) =
    let n : RenameState = with_table i.rename table in
    let (holds, same) =
      work-Holds (record s { flush_frontend = false }) i.result i.brupdate n w v in
    subst
      (λ (q : RobModuleState × RenameState).
        Holds h q.0.rob × (q.1.int_map_table.committed_map_table ≡ table))
      (sym (module_works s i.result i.brupdate n v.normal))
      (holds, ap (λ (x : RenameState). x.int_map_table.committed_map_table) same)

cycles-Holds :
    (h : ℕ) (is : List Inputs) (s : RobModuleState) (table : List ℕ)
    → Holds h s.rob
    → Holds h (cycles is s table).0.rob × ((cycles is s table).1 ≡ table)
unfolding cycles
cycles-Holds h [] s table v = (v, refl)
cycles-Holds h (i ∷ is) s table v =
    let (next, same) = cycle-Holds h i s table v in
    let (rest, kept) = cycles-Holds h is _ _ next in (rest, kept ∙ same)

-- The buffer that the misprediction of a cycle finds.
abbrev pub killed_from : Inputs → RobModuleState → List ℕ → RobInternalState
killed_from i s table =
    (retire_head
      (offered (record s { flush_frontend = false }) i.result (with_table i.rename table))
      (with_table i.rename table)).0.rob

work_kills :
    (i : Inputs) (s : RobModuleState) (n : RenameState)
    → i.brupdate.valid ≡ true
    → i.brupdate.mispredict ≡ true
    → (work s i.result i.brupdate n).0.rob
      ≡ kill_all i.brupdate.mispredict_mask (retire_head (offered s i.result n) n).0.rob
unfolding work flush_killed
work_kills i s n valid miss =
    if_true {b = i.brupdate.valid && i.brupdate.mispredict} _ _ (ground (arith, valid, miss))

cycle_kills :
    (i : Inputs) (s : RobModuleState) (table : List ℕ)
    → s.rob.state ≡ rob_normal
    → i.brupdate.valid ≡ true
    → i.brupdate.mispredict ≡ true
    → (cycle i s table).0.rob ≡ kill_all i.brupdate.mispredict_mask (killed_from i s table)
unfolding cycle
cycle_kills i s table normal valid miss =
    ap (λ (q : RobModuleState × RenameState). q.0.rob)
      (module_works s i.result i.brupdate (with_table i.rename table) normal)
    ∙ work_kills i (record s { flush_frontend = false }) (with_table i.rename table) valid miss

-- If the misprediction of a cycle leaves no valid entry at the head, since what was there is killed or
-- nothing was there, no later cycle commits: whatever the inputs are, the head and the table of
-- committed registers stay as they are.
pub mispredict_stops_commits :
    (i : Inputs) (is : List Inputs) (s : RobModuleState) (table : List ℕ)
    → HasShape s.rob
    → s.rob.state ≡ rob_normal
    → i.brupdate.valid ≡ true
    → i.brupdate.mispredict ≡ true
    → (entry_at (cycle i s table).0.rob (cycle i s table).0.rob.head).valid ≡ false
    → ((cycles (i ∷ is) s table).0.rob.head ≡ (cycle i s table).0.rob.head)
      × ((cycles (i ∷ is) s table).1 ≡ (cycle i s table).1)
unfolding cycles Holds
mispredict_stops_commits i is s table w normal valid miss dead =
    let n : RenameState = with_table i.rename table in
    let shape : HasShape (killed_from i s table) =
      retire-HasShape (offered (record s { flush_frontend = false }) i.result n) n
        (finish-HasShape i.result (allocate-HasShape n w)) in
    let kills = cycle_kills i s table normal valid miss in
    let first : Holds (cycle i s table).0.rob.head (cycle i s table).0.rob =
      subst (λ (rob : RobInternalState). Holds rob.head rob) (sym kills)
        (
          kill_all-HasShape i.brupdate.mispredict_mask shape,
          kill_all-IsStuck i.brupdate.mispredict_mask shape (
              subst (λ (rob : RobInternalState). (entry_at rob rob.head).valid ≡ false) kills dead),
        ) in
    let (end, same) =
      cycles-Holds (cycle i s table).0.rob.head is (cycle i s table).0 (cycle i s table).1 first in
    (end.1.at_head, same)
