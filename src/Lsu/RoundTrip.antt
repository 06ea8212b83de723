-- ===== src/Lsu/RoundTrip.antt =====
-- A load of src/lsu.cpp from its request to the response.
use boom.Base.{
  ℕ, ◌<◌, ◌≡◌, refl, ap, ◌∙◌, arith, true, false, ◌!=◌, if◌then◌else◌, length, length-set, set,
  get_or-set_self,
}
use boom.Types.Entries.{RobEntry, rob_entry_init}
use boom.Types.Messages.{DmemResponse}
use boom.Pipe.{PipeSignals}
use boom.State.{BoomCoreState}
use boom.Lsu.Value.{load_value}
use boom.Lsu.Issue.{may_issue, try_issue_load, entry_at}
use boom.Lsu.{accept_response, finish_load, write_load, nonzero_or, awaited}

-- A state that waits for exactly this response.
record Waits (resp : DmemResponse) (t : BoomCoreState) (j : ℕ) (e : RobEntry) : Type 0 where
  pending : t.lsu.load_response_pending ≡ true
  number : resp.transaction_id ≡ t.lsu.pending_load_transaction_id
  index : t.lsu.pending_load_rob_idx ≡ j
  entry : entry_at t j ≡ e
  waits : awaited e ≡ true
  long : length t.rob.entries ≡ 32

-- What the response does to the state.
record Completed (resp : DmemResponse) (t u : BoomCoreState) (j : ℕ) (e : RobEntry) : Type 0 where
  cleared : u.lsu.load_response_pending ≡ false
  written : u.int_rf ≡ write_load resp e t.int_rf
  finished : entry_at u j ≡ finish_load resp e

accept-Completed :
    (resp : DmemResponse) (t : BoomCoreState) (j : ℕ) (e : RobEntry)
    → j < 32
    → Waits resp t j e
    → Completed resp t (accept_response resp t) j e
unfolding accept_response
accept-Completed resp t j e h w = record {
  cleared = ground (arith, w.pending, w.number, w.index, w.entry, w.waits);
  written = ground (arith, w.pending, w.number, w.index, w.entry, w.waits);
  finished = ground (
    arith,
    w.pending,
    w.number,
    w.index,
    w.entry,
    w.waits,
    get_or-set_self t.rob.entries j (finish_load resp e) rob_entry_init,
    w.long,
  );
}

-- The entry of a load after its request.
abbrev requested : BoomCoreState → ℕ → RobEntry
requested s j = record (entry_at s j) {
  memory_request_sent = true;
  memory_transaction_id = s.lsu.next_transaction_id;
}

try_issue_load-Waits :
    (s : BoomCoreState) (p : PipeSignals) (j : ℕ) (resp : DmemResponse)
    → may_issue s p j ≡ true
    → j < 32
    → length s.rob.entries ≡ 32
    → resp.transaction_id ≡ s.lsu.next_transaction_id
    → Waits resp (try_issue_load s p j).0 j (requested s j)
unfolding try_issue_load may_issue
try_issue_load-Waits s p j resp m h long number = record {
  pending = rw m refl;
  number = rw m number;
  index = rw m refl;
  entry = rw m (get_or-set_self s.rob.entries j (requested s j) rob_entry_init (omega arith));
  waits = ground arith;
  long = rw m (length-set s.rob.entries j (requested s j) ∙ long);
}

same_rf : (s : BoomCoreState) (p : PipeSignals) (j : ℕ) → (try_issue_load s p j).0.int_rf ≡ s.int_rf
unfolding try_issue_load
same_rf s p j = ground arith

-- A load of one of the 32 entries that is sent and then answered under its own number without an
-- exception is complete and no longer busy; the bytes of the answer at its address, extended as it asks, are its data and go to its
-- register unless that is register 0, and no load is outstanding.
pub load_roundtrip :
    (s : BoomCoreState) (p : PipeSignals) (j : ℕ) (resp : DmemResponse)
    → may_issue s p j ≡ true
    → j < 32
    → length s.rob.entries ≡ 32
    → resp.transaction_id ≡ s.lsu.next_transaction_id
    → resp.exception ≡ false
    → let e = entry_at s j in
      let d = nonzero_or resp.read_data resp.data_ in
      let v = load_value d e.memory_address e.memory_size e.signed_load in
      let u = accept_response resp (try_issue_load s p j).0 in
      (u.lsu.load_response_pending ≡ false)
      × ((entry_at u j).memory_completed ≡ true)
      × ((entry_at u j).busy ≡ false)
      × ((entry_at u j).memory_data ≡ v)
      × (u.int_rf ≡ (if e.uop.rename.pdst != 0 then set s.int_rf e.uop.rename.pdst v else s.int_rf))
unfolding finish_load write_load
load_roundtrip s p j resp m h long number fine =
    let c =
      accept-Completed resp (try_issue_load s p j).0 j (requested s j) h
        (try_issue_load-Waits s p j resp m h long number) in
    (
      c.cleared,
      ap (λ (e : RobEntry). e.memory_completed) c.finished ∙ rw fine refl,
      ap (λ (e : RobEntry). e.busy) c.finished ∙ rw fine refl,
      ap (λ (e : RobEntry). e.memory_data) c.finished ∙ rw fine refl,
      c.written ∙ ap (write_load resp (requested s j)) (same_rf s p j) ∙ rw fine refl,
    )
