-- ===== src/Rob/Retire/Order.antt =====
-- `retire` of src/boom_core_step.cpp: entries leave the reorder buffer one at a time, the oldest first.
use boom.Base.{◌+◌, ◌%◌, ◌≡◌, refl, ap, sym, ◌∙◌, arith, u64, true, false, ◌∷◌, get_or-set_self}
use boom.Types.Codes.{RobState, rob_exception}
use boom.Types.Entries.{RobEntry, rob_entry_init, CommitEntry}
use boom.Pipe.{PipeSignals, write}
use boom.State.{BoomCoreState, RobInternalState}
use boom.Rob.Retire.{
  pop, head_entry, is_empty, retire_exception, note_store, commit, commit_record, retire_normal,
  retire, stores, store_request,
}
use boom.Rob.Queue.{
  IsValid, contents, size, window-set_outside, pop-IsValid, pop_refines, contents-pop,
  set_entry-IsValid,
}

-- What one call of `retire` does to the core, from `s` to `t`.
pub data Retired (s t : BoomCoreState) : Type 0 where
  -- Nothing leaves: no operation is counted or recorded.
  stalled :
      contents t.rob ≡ contents s.rob
      → t.csr.instret ≡ s.csr.instret
      → t.rob.commit_valid ≡ s.rob.commit_valid
      → Retired s t
  -- An `ecall` at the head leaves and ends the program: it is not counted.
  ended :
      contents s.rob ≡ head_entry s.rob ∷ contents t.rob
      → (head_entry s.rob).uop.uopc ≡ 65
      → t.csr.instret ≡ s.csr.instret
      → Retired s t
  -- The head leaves, is counted and recorded.
  committed :
      contents s.rob ≡ head_entry s.rob ∷ contents t.rob
      → (head_entry s.rob).busy ≡ false
      → (head_entry s.rob).exception ≡ false
      → t.csr.instret ≡ u64 (s.csr.instret + 1)
      → t.rob.last_commit.pc ≡ (head_entry s.rob).uop.debug_pc
      → t.rob.commit_valid ≡ true
      → Retired s t

-- The store that the head sends marks its entry alone.
abbrev sent : RobInternalState → RobEntry
sent rob = record (head_entry rob) { memory_request_sent = true; memory_completed = true }

note_store-IsValid : (s : BoomCoreState) → IsValid s.rob → IsValid (note_store s).rob
unfolding note_store
note_store-IsValid s v = set_entry-IsValid s.rob.head (sent s.rob) refl v

-- The other entries are what they were.
pub contents-pop-note_store :
    (s : BoomCoreState)
    → IsValid s.rob
    → is_empty s.rob ≡ false
    → contents (pop (note_store s).rob) ≡ contents (pop s.rob)
unfolding note_store pop
contents-pop-note_store s v some =
    contents-pop (note_store-IsValid s v) some
    ∙ window-set_outside s.rob.entries ((s.rob.head + 1) % 32) (size (pop s.rob)) s.rob.head
        (sent s.rob) (omega arith) v.head_in (ground arith)
    ∙ sym (contents-pop v some)

-- The four ways out of `retire`.
retire_cases {ℓ} :
    (P : BoomCoreState → Type ℓ) (s : BoomCoreState) (p : PipeSignals)
    → P s
    → (is_empty s.rob ≡ false → (head_entry s.rob).exception ≡ true → P (retire_exception s))
    → (is_empty s.rob ≡ false
        → (head_entry s.rob).busy ≡ false
        → (head_entry s.rob).exception ≡ false
        → P (commit s p).0)
    → (is_empty s.rob ≡ false
        → (head_entry s.rob).busy ≡ false
        → (head_entry s.rob).exception ≡ false
        → P (commit (note_store s) (record p { dmem_req = write p.dmem_req (store_request s) })).0)
    → P (retire s p).0
unfolding retire retire_normal
retire_cases P s p stays traps commits stores = ground arith

-- The exception of an `ecall` pops the head; any other leaves the buffer's entries alone.
retire_exception_cases {ℓ} :
    (P : BoomCoreState → Type ℓ) (s : BoomCoreState)
    → ((head_entry s.rob).uop.uopc ≡ 65 → P (record s { rob = pop s.rob; io_success = true }))
    → ((head_entry s.rob).uop.uopc ≡ 65 → P (record s { rob = pop s.rob; io_trap = true }))
    → P (record s { rob = record s.rob { state = rob_exception }; io_trap = true })
    → P (retire_exception s)
unfolding retire_exception
retire_exception_cases P s good bad stops = ground arith

-- The state machine of the buffer is no part of what it holds.
with_state-IsValid :
    {rob : RobInternalState} (x : RobState) → IsValid rob → IsValid (record rob { state = x })
with_state-IsValid x v = record {
  entries_length = v.entries_length;
  head_in = v.head_in;
  tail_in = v.tail_in;
  full_meets = v.full_meets;
  live = v.live;
}

-- Nor is the record of the last commit.
with_commit-IsValid :
    {rob : RobInternalState} (c : CommitEntry)
    → IsValid rob
    → IsValid (record rob { last_commit = c; commit_valid = true })
with_commit-IsValid c v = record {
  entries_length = v.entries_length;
  head_in = v.head_in;
  tail_in = v.tail_in;
  full_meets = v.full_meets;
  live = v.live;
}

commit-Retired :
    (s : BoomCoreState) (p : PipeSignals)
    → IsValid s.rob
    → is_empty s.rob ≡ false
    → (head_entry s.rob).busy ≡ false
    → (head_entry s.rob).exception ≡ false
    → IsValid (commit s p).0.rob × Retired s (commit s p).0
unfolding commit commit_record
commit-Retired s p v some idle fine = (
  with_commit-IsValid (commit_record s) (pop-IsValid v some),
  committed (pop_refines v some) idle fine refl refl refl,
)

commit_store-Retired :
    (s : BoomCoreState) (p : PipeSignals)
    → IsValid s.rob
    → is_empty s.rob ≡ false
    → (head_entry s.rob).busy ≡ false
    → (head_entry s.rob).exception ≡ false
    → IsValid (commit (note_store s) p).0.rob × Retired s (commit (note_store s) p).0
unfolding commit commit_record note_store
commit_store-Retired s p v some idle fine = (
  with_commit-IsValid (commit_record (note_store s)) (pop-IsValid (note_store-IsValid s v) some),
  committed
      (pop_refines v some ∙ ap (◌∷◌ (head_entry s.rob)) (sym (contents-pop-note_store s v some)))
      idle fine refl
      (ap (λ (e : RobEntry). e.uop.debug_pc)
        (get_or-set_self s.rob.entries s.rob.head (sent s.rob) rob_entry_init (omega arith)))
      refl,
)

-- From a valid buffer, `retire` keeps it valid and does one of three things: nothing leaves and nothing
-- is counted; an `ecall` at the head leaves and is not counted; or the head, which was executed without
-- an exception, leaves, is counted once and is the commit recorded. In each case what stays is unchanged
-- and in order.
pub retire_in_order :
    (s : BoomCoreState) (p : PipeSignals)
    → IsValid s.rob
    → IsValid (retire s p).0.rob × Retired s (retire s p).0
retire_in_order s p v =
    retire_cases (λ t. IsValid t.rob × Retired s t) s p (v, stalled refl refl refl)
      (λ some _.
        retire_exception_cases (λ t. IsValid t.rob × Retired s t) s
          (λ call. (pop-IsValid v some, ended (pop_refines v some) call refl))
          (λ call. (pop-IsValid v some, ended (pop_refines v some) call refl))
          (with_state-IsValid rob_exception v, stalled refl refl refl))
      (commit-Retired s p v) (commit_store-Retired s _ v)
