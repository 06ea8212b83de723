-- ===== src/All/Queue/Fifo.antt =====
-- The issue queue of src/boom_all.cpp as a bounded queue of the operations that wait, and its choice.
use boom.Base.{
  ℕ, ◌+◌, ◌-◌, ◌%◌, ◌<◌, ◌≡◌, refl, ap, ap₂, ◌∙◌, arith, Bool, true, false, ◌&&◌, ◌==◌, ltb,
  if◌then◌else◌, [], ◌∷◌, ◌++◌, length, replicate, set, append_nil, u8,
}
use boom.Types.Uop.{MicroOp}
use boom.Types.Entries.{issue_slot_entry_init}
use boom.State.{IssueQueueState}
use boom.Issue.{waiting}
use boom.Issue.Waiting.{
  waiting_append, waiting_idempotent, waiting-replicate, length-waiting, waiting-set_end,
}
use boom.All.Queue.{slot_of, iq_enqueue, iq_compress, iq_dispatch}

-- The compaction keeps the operations that wait, in their order, and counts them.
iq_compress_keeps :
    (iq : IssueQueueState)
    → length iq.entries ≡ 8
    → (waiting (iq_compress iq).entries ≡ waiting iq.entries)
      × ((iq_compress iq).count ≡ length (waiting iq.entries))
unfolding iq_compress
iq_compress_keeps iq h =
    let kept = waiting iq.entries in
    (
      waiting_append kept (replicate (8 - length kept) issue_slot_entry_init)
          ∙ ap₂ ◌++◌ (waiting_idempotent iq.entries) (waiting-replicate (8 - length kept))
          ∙ append_nil kept,
      omega (arith, length-waiting iq.entries),
    )

compress_tail :
    (iq : IssueQueueState)
    → length (waiting iq.entries) < 8
    → (iq_compress iq).tail ≡ length (waiting iq.entries)
unfolding iq_compress
compress_tail iq room = omega arith

compress_set :
    (iq : IssueQueueState) (u : MicroOp)
    → length (waiting iq.entries) < 8
    → waiting (set (iq_compress iq).entries (length (waiting iq.entries)) (slot_of u))
      ≡ waiting iq.entries ++ slot_of u ∷ []
unfolding iq_compress
compress_set iq u room =
    waiting-set_end (waiting iq.entries) (slot_of u) room (waiting_idempotent iq.entries) refl

dispatch_cases :
    (P : IssueQueueState → Bool → Bool → Type 0) (iq : IssueQueueState) (type : ℕ) (u : MicroOp)
    (n : ℕ)
    → iq.count ≡ n
    → P iq false false
    → (n < 8
        → P
            (record iq {
              entries = set iq.entries iq.tail (slot_of u);
              tail = u8 ((iq.tail + 1) % 8);
              count = u8 (iq.count + 1);
            })
            true
            true)
    → P (iq_dispatch iq type u).0 (iq_dispatch iq type u).1 (u.iq_type == type && ltb n 8)
unfolding iq_dispatch iq_enqueue
dispatch_cases P iq type u n e refused took = ground arith

-- A queue that was compacted takes an operation of its own kind exactly if fewer than eight wait, and
-- then puts it behind them; otherwise the operations that wait are unchanged.
pub iq_dispatch_refines :
    (iq : IssueQueueState) (type : ℕ) (u : MicroOp)
    → length iq.entries ≡ 8
    → let taken = u.iq_type == type && ltb (length (waiting iq.entries)) 8 in
      let (iq', answer) = iq_dispatch (iq_compress iq) type u in
      (answer ≡ taken)
      × (waiting iq'.entries
          ≡ (if taken then waiting iq.entries ++ slot_of u ∷ [] else waiting iq.entries))
iq_dispatch_refines iq type u h =
    dispatch_cases
      (λ q answer taken.
        (answer ≡ taken)
        × (waiting q.entries
            ≡ (if taken then waiting iq.entries ++ slot_of u ∷ [] else waiting iq.entries)))
      (iq_compress iq) type u (length (waiting iq.entries)) counted (refl, kept)
      (λ room. (
        refl,
        ap (λ (i : ℕ). waiting (set (iq_compress iq).entries i (slot_of u))) (at_end room)
            ∙ compressed room,
      ))
  where
    kept : waiting (iq_compress iq).entries ≡ waiting iq.entries
    kept = (iq_compress_keeps iq h).0

    counted : (iq_compress iq).count ≡ length (waiting iq.entries)
    counted = (iq_compress_keeps iq h).1

    at_end : length (waiting iq.entries) < 8 → (iq_compress iq).tail ≡ length (waiting iq.entries)
    at_end room = compress_tail iq room

    compressed :
        length (waiting iq.entries) < 8
        → waiting (set (iq_compress iq).entries (length (waiting iq.entries)) (slot_of u))
          ≡ waiting iq.entries ++ slot_of u ∷ []
    compressed room = compress_set iq u room
