-- ===== src/Issue/Order.antt =====
-- `issue_module` of src/issue.cpp as a queue from which the oldest ready operation leaves.
use boom.Base.{
  ℕ, zero, suc, ◌+◌, ◌-◌, ◌%◌, ◌<◌, ◌≡◌, refl, ap, ap₂, sym, ◌∙◌, arith, u8, Bool, true, false, not,
  ◌&&◌, ltb, if◌then◌else◌, List, [], ◌∷◌, ◌++◌, length, length-set, length-append,
  length-replicate, append_nil, replicate, get_or, get_or-append, get_or-replicate, set, Option,
  none, some,
}
use boom.Types.Uop.{MicroOp}
use boom.Types.Entries.{IssueSlotEntry, issue_slot_entry_init}
use boom.State.{IssueQueueState, IssueState}
use boom.Issue.{
  waiting, is_ready, select, compact, dispatch, dispatchable, fill_slot, schedule, issue_ports,
}
use boom.Execute.{first_issued}
use boom.Issue.Waiting.{
  waiting_append, waiting_idempotent, waiting-replicate, length-waiting, waiting-set_end,
}

-- The oldest ready operation leaves; the others stay in order.
pub take_ready : List IssueSlotEntry → List IssueSlotEntry × Option MicroOp
take_ready [] = ([], none)
take_ready (s ∷ ss) =
    let rest = take_ready ss in if is_ready s then (ss, some s.uop) else (s ∷ rest.0, rest.1)

-- No slot was granted yet.
pub ungranted : List IssueSlotEntry → Bool
ungranted [] = true
ungranted (s ∷ ss) = not s.granted && ungranted ss

ungranted-waiting : (xs : List IssueSlotEntry) → ungranted (waiting xs) ≡ true
unfolding waiting ungranted
ungranted-waiting [] = refl
ungranted-waiting (x ∷ xs) = ground (arith, ungranted-waiting xs)

ungranted_append :
    (xs ys : List IssueSlotEntry)
    → ungranted xs ≡ true
    → ungranted ys ≡ true
    → ungranted (xs ++ ys) ≡ true
unfolding ungranted
ungranted_append [] ys a b = b
ungranted_append (x ∷ xs) ys a b = ground (arith, ungranted_append xs ys)

ungranted-replicate : (n : ℕ) → ungranted (replicate n issue_slot_entry_init) ≡ true
unfolding ungranted
ungranted-replicate zero = refl
ungranted-replicate (suc n) = ungranted-replicate n

ungranted-set :
    (xs : List IssueSlotEntry) (i : ℕ) (x : IssueSlotEntry)
    → x.granted ≡ false
    → ungranted xs ≡ true
    → ungranted (set xs i x) ≡ true
unfolding ungranted
ungranted-set [] i x g h = refl
ungranted-set (y ∷ ys) zero x g h = ground arith
ungranted-set (y ∷ ys) (suc i) x g h = ground (arith, ungranted-set ys i x g)

length-select : (xs : List IssueSlotEntry) → length (select xs).0 ≡ length xs
unfolding select
length-select [] = refl
length-select (x ∷ xs) = ground (arith, length-select xs)

-- The selection is what leaves of those that wait.
select-waiting :
    (xs : List IssueSlotEntry)
    → ungranted xs ≡ true
    → (waiting (select xs).0 ≡ (take_ready (waiting xs)).0)
      × ((select xs).1 ≡ (take_ready (waiting xs)).1)
unfolding waiting select take_ready ungranted
select-waiting [] h = (refl, refl)
select-waiting (x ∷ xs) h = ground (arith, select-waiting xs)

-- The queue between two calls: those that wait, oldest first, then empty slots.
pub record IsCompacted (q : IssueQueueState) : Type 0 where
  pub entries_length : length q.entries ≡ 8
  pub in_front :
      q.entries
      ≡ waiting q.entries ++ replicate (8 - length (waiting q.entries)) issue_slot_entry_init
  pub tail_at : q.tail ≡ length (waiting q.entries) % 8
  pub count_at : q.count ≡ length (waiting q.entries)

waiting-compact : (q : IssueQueueState) → waiting (compact q).entries ≡ waiting q.entries
unfolding compact
waiting-compact q =
    let kept = waiting q.entries in
    waiting_append kept (replicate (8 - length kept) issue_slot_entry_init)
    ∙ ap₂ ◌++◌ (waiting_idempotent q.entries) (waiting-replicate (8 - length kept))
    ∙ append_nil kept

pub compact-IsCompacted : (q : IssueQueueState) → length q.entries ≡ 8 → IsCompacted (compact q)
unfolding compact
compact-IsCompacted q h =
    let kept = waiting q.entries in
    let spare = 8 - length kept in
    let same = waiting-compact q in
    let few = length-waiting q.entries in
    record {
      entries_length = omega (
        arith,
        length-append kept (replicate spare issue_slot_entry_init),
        length-replicate spare issue_slot_entry_init,
      );
      in_front =
          ap (λ (w : List IssueSlotEntry). w ++ replicate (8 - length w) issue_slot_entry_init)
            (sym same);
      tail_at = omega (arith, ap (λ (w : List IssueSlotEntry). length w) same);
      count_at = omega (arith, ap (λ (w : List IssueSlotEntry). length w) same);
    }

compacted-ungranted : {q : IssueQueueState} → IsCompacted q → ungranted q.entries ≡ true
compacted-ungranted {q} v =
    ap ungranted v.in_front
    ∙ ungranted_append (waiting q.entries) _ (ungranted-waiting q.entries)
        (ungranted-replicate (8 - length (waiting q.entries)))

-- The slot of a dispatched operation, and whether the queue takes one.
abbrev pub new_slot : MicroOp → IssueSlotEntry
new_slot u = fill_slot u issue_slot_entry_init

abbrev pub accepted : Bool → MicroOp → IssueQueueState → Bool
accepted valid u q = valid && dispatchable u && ltb (length (waiting q.entries)) 8

-- Those that wait after dispatch.
abbrev pub offered : Bool → MicroOp → IssueQueueState → List IssueSlotEntry
offered valid u q =
    if accepted valid u q then waiting q.entries ++ new_slot u ∷ [] else waiting q.entries

-- What selection may rely on after dispatch.
record Ready (q : IssueQueueState) (w : List IssueSlotEntry) : Type 0 where
  long : length q.entries ≡ 8
  calm : ungranted q.entries ≡ true
  holds : waiting q.entries ≡ w

dispatch_cases :
    (P : IssueQueueState → List IssueSlotEntry → Type 0) (valid : Bool) (u : MicroOp)
    (q : IssueQueueState)
    → IsCompacted q
    → P q (waiting q.entries)
    → (length (waiting q.entries) < 8
        → P
            (record q {
              entries =
                  set q.entries q.tail
                    (fill_slot u (get_or q.entries q.tail issue_slot_entry_init));
              tail = u8 ((q.tail + 1) % 8);
              count = u8 (q.count + 1);
            })
            (waiting q.entries ++ new_slot u ∷ []))
    → P (if valid then dispatch q u else q) (offered valid u q)
unfolding dispatch
dispatch_cases P valid u q v kept took = ground (arith, v.count_at)

-- The slot at the tail is empty, and the operation goes there.
filled :
    (u : MicroOp) {q : IssueQueueState}
    → IsCompacted q
    → length (waiting q.entries) < 8
    → waiting (set q.entries q.tail (fill_slot u (get_or q.entries q.tail issue_slot_entry_init)))
      ≡ waiting q.entries ++ new_slot u ∷ []
unfolding fill_slot
filled u {q} v room =
    ap₂ at_tail v.in_front (omega (arith, v.tail_at))
    ∙ ap (λ (e : IssueSlotEntry). waiting (set (padded) (length kept) (fill_slot u e)))
        (get_or-append kept _ issue_slot_entry_init ∙ first_empty)
    ∙ waiting-set_end kept (new_slot u) room (waiting_idempotent q.entries) refl
  where
    kept : List IssueSlotEntry
    kept = waiting q.entries

    padded : List IssueSlotEntry
    padded = kept ++ replicate (8 - length kept) issue_slot_entry_init

    at_tail : List IssueSlotEntry → ℕ → List IssueSlotEntry
    at_tail es i = waiting (set es i (fill_slot u (get_or es i issue_slot_entry_init)))

    first_empty :
        get_or (replicate (8 - length kept) issue_slot_entry_init) 0 issue_slot_entry_init
        ≡ issue_slot_entry_init
    first_empty = get_or-replicate (8 - length kept) 0 issue_slot_entry_init

dispatch-Ready :
    (valid : Bool) (u : MicroOp) (q : IssueQueueState)
    → IsCompacted q
    → Ready (if valid then dispatch q u else q) (offered valid u q)
unfolding fill_slot
dispatch-Ready valid u q v =
    dispatch_cases Ready valid u q v
      (record { long = v.entries_length; calm = compacted-ungranted v; holds = refl })
      (λ room. record {
        long = length-set q.entries q.tail _ ∙ v.entries_length;
        calm = ungranted-set q.entries q.tail _ refl (compacted-ungranted v);
        holds = filled u v room;
      })

abbrev pub to_list : Option MicroOp → List MicroOp
to_list none = []
to_list (some u) = u ∷ []

issued-issue_ports :
    (o : Option MicroOp) (iss : IssueState)
    → first_issued (issue_ports o iss).issued_valids (issue_ports o iss).issued_uops ≡ to_list o
unfolding issue_ports first_issued
issued-issue_ports none iss = refl
issued-issue_ports (some u) iss = refl

schedule_from :
    (iss : IssueState) (q : IssueQueueState) (w : List IssueSlotEntry)
    → Ready q w
    → let (granted, chosen) = select q.entries in
      let queue = compact (record q { entries = granted }) in
      IsCompacted queue
      × (waiting queue.entries ≡ (take_ready w).0)
      × (first_issued (issue_ports chosen iss).issued_valids (issue_ports chosen iss).issued_uops
          ≡ to_list (take_ready w).1)
schedule_from iss q w v =
    let (left, chosen) = select-waiting q.entries v.calm in
    let all = ap take_ready v.holds in
    (
      compact-IsCompacted (record q { entries = (select q.entries).0 })
          (length-select q.entries ∙ v.long),
      waiting-compact (record q { entries = (select q.entries).0 })
          ∙ left
          ∙ ap (λ (t : List IssueSlotEntry × Option MicroOp). t.0) all,
      issued-issue_ports (select q.entries).1 iss
          ∙ ap to_list (chosen ∙ ap (λ (t : List IssueSlotEntry × Option MicroOp). t.1) all),
    )

-- From a compacted queue, the offered operation first goes behind those that wait, if it is valid, of a
-- kind that the queue takes, and fewer than eight wait; then the oldest ready operation leaves, and it
-- is the one operation that execute finds on the issue ports; the others stay in order and the queue is
-- compacted again. An operation can so leave in the cycle in which it came.
pub schedule_refines :
    (valid : Bool) (u : MicroOp) (iss : IssueState)
    → IsCompacted iss.alu_iq
    → let iss' = schedule valid u iss in
      let (left, chosen) = take_ready (offered valid u iss.alu_iq) in
      IsCompacted iss'.alu_iq
      × (waiting iss'.alu_iq.entries ≡ left)
      × (first_issued iss'.issued_valids iss'.issued_uops ≡ to_list chosen)
unfolding schedule
schedule_refines valid u iss v =
    schedule_from iss (if valid then dispatch iss.alu_iq u else iss.alu_iq)
      (offered valid u iss.alu_iq) (dispatch-Ready valid u iss.alu_iq v)
