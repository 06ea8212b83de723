-- ===== src/Frontend/Matching.antt =====
-- The fetch state machine of src/frontend.cpp: one request is outstanding at a time, and only the
-- response to it makes a packet.
use boom.Base.{
  ℕ, ◌+◌, ◌-◌, ◌/◌, ◌%◌, ◌<◌, ◌^◌, ◌≡◌, refl, ap, ap₂, ◌∙◌, arith, if_either, u32, u64, Bool, true,
  false, not, ◌&&◌, ◌||◌, ◌==◌, if◌then◌else◌, List, [], ◌∷◌,
}
use boom.Base.Bits.{bit_and_digit, bit_and-low_mask}
use boom.Types.Messages.{ImemRequest, imem_request_init, ImemResponse}
use boom.Pipe.{PipeSignals, full, write}
use boom.State.{BoomCoreState, FrontendState}
use boom.Frontend.{
  drop_packet, send_request, read_response, make_packet, fetch, prepare, redirect, leave_reset,
  note_flush, finish_flush, frontend_module, is_exception, word_aligned,
}

-- A response is waited for under the number before the next one, and the flag that one was received is
-- clear.
pub record IsWaiting (fe : FrontendState) : Type 0 where
  pub number : fe.request_sent ≡ true → fe.fetch_id ≡ u32 (fe.pending_fetch_id + 1)
  pub consumed : fe.response_received ≡ false

-- The number of the request that a fetch waits for: the outstanding one, or the one it sends itself.
abbrev pub awaited_id : FrontendState → ℕ
awaited_id fe = if fe.request_sent then fe.pending_fetch_id else fe.fetch_id

-- Whether a request is outstanding when the response is read.
abbrev pub asks : FrontendState → List ImemRequest → Bool
asks fe q = fe.request_sent || not (full q)

-- A fetch that finds a response makes a packet exactly if a request is outstanding and the response has
-- its number. The packet then has the response's address and instruction, and the next address follows
-- it; otherwise the response is dropped, the address stays and the request stays outstanding.
pub fetch_response :
    (fe : FrontendState) (p : PipeSignals) (resp : ImemResponse) (q : List ImemResponse)
    → IsWaiting fe
    → p.imem_resp ≡ resp ∷ q
    → let (fe', p') = fetch fe p in
      let hit = asks fe p.imem_req && resp.fetch_id == awaited_id fe in
      (fe'.fetch_packet_valid ≡ hit)
      × (p'.imem_resp ≡ q)
      × (hit ≡ true
          → (fe'.fetch_uop.debug_pc ≡ resp.address)
            × (fe'.fetch_uop.inst ≡ resp.instruction)
            × (fe'.pc ≡ u64 (resp.address + 4))
            × (fe'.request_sent ≡ false))
      × (hit ≡ false → (fe'.pc ≡ fe.pc) × (fe'.request_sent ≡ asks fe p.imem_req))
unfolding fetch drop_packet send_request make_packet read_response
fetch_response fe p resp q w e = ground arith

-- With no response to read there is no packet, the address stays, and a request is outstanding unless
-- the stream of requests is full.
pub fetch_waits :
    (fe : FrontendState) (p : PipeSignals)
    → IsWaiting fe
    → p.imem_resp ≡ []
    → let (fe', p') = fetch fe p in
      (fe'.fetch_packet_valid ≡ false) × (fe'.pc ≡ fe.pc) × (fe'.request_sent ≡ asks fe p.imem_req)
unfolding fetch drop_packet send_request make_packet read_response
fetch_waits fe p w e = ground arith

fetch-IsWaiting_on :
    (fe : FrontendState) (p : PipeSignals) (q : List ImemResponse)
    → p.imem_resp ≡ q
    → IsWaiting fe
    → IsWaiting (fetch fe p).0
unfolding fetch drop_packet send_request make_packet read_response
fetch-IsWaiting_on fe p [] e w = ground arith
fetch-IsWaiting_on fe p (resp ∷ q) e w = ground arith

note_flush-IsWaiting :
    (s : BoomCoreState) → IsWaiting s.frontend → IsWaiting (note_flush s).frontend
unfolding note_flush
note_flush-IsWaiting s w = ground arith

leave_reset-IsWaiting :
    (s : BoomCoreState) → IsWaiting s.frontend → IsWaiting (leave_reset s).frontend
unfolding leave_reset
leave_reset-IsWaiting s w = ground arith

redirect-IsWaiting : (s : BoomCoreState) → IsWaiting s.frontend → IsWaiting (redirect s).frontend
unfolding redirect
redirect-IsWaiting s w = ground arith

finish_flush-IsWaiting :
    (s : BoomCoreState) → IsWaiting s.frontend → IsWaiting (finish_flush s).frontend
unfolding finish_flush
finish_flush-IsWaiting s w = ground arith

prepare-IsWaiting : (s : BoomCoreState) → IsWaiting s.frontend → IsWaiting (prepare s).frontend
unfolding prepare
prepare-IsWaiting s w = redirect-IsWaiting _ (leave_reset-IsWaiting _ (note_flush-IsWaiting s w))

-- A state in which no packet is offered waits as before.
idle-IsWaiting :
    {fe : FrontendState} → IsWaiting fe → IsWaiting (record fe { fetch_packet_valid = false })
idle-IsWaiting w = record { number = w.number; consumed = w.consumed }

-- The stream without its oldest response.
abbrev pub unread : List ImemResponse → List ImemResponse
unread [] = []
unread (resp ∷ q) = q

fetch-reads :
    (fe : FrontendState) (p : PipeSignals) (q : List ImemResponse)
    → p.imem_resp ≡ q
    → (fetch fe p).1.imem_resp ≡ unread q
unfolding fetch send_request read_response
fetch-reads fe p [] e = ground arith
fetch-reads fe p (resp ∷ q) e = ground arith

if_apply {ℓ κ} :
    {A : Type ℓ} {B : Type κ} (f : A → B) (b : Bool) (x y : A)
    → f (if b then x else y) ≡ (if b then f x else f y)
if_apply f true x y = refl
if_apply f false x y = refl

prepare-state : (s : BoomCoreState) → (prepare s).rob.state ≡ s.rob.state
unfolding prepare redirect leave_reset note_flush
prepare-state s = ground arith

-- Every call of the front end keeps the number of an outstanding request just below the next number and
-- the flag that a response was received clear. It takes the oldest response from the stream, if there is
-- one, except in an exception of the reorder buffer, where it takes none.
pub frontend_module-IsWaiting :
    (s : BoomCoreState) (p : PipeSignals)
    → IsWaiting s.frontend
    → IsWaiting (frontend_module s p).0.frontend
      × ((frontend_module s p).1.imem_resp
          ≡ (if is_exception s.rob.state then p.imem_resp else unread p.imem_resp))
unfolding frontend_module
frontend_module-IsWaiting s p w =
    let prepared = prepare-IsWaiting s w in
    (
      if_either (λ (t : BoomCoreState × PipeSignals). IsWaiting t.0.frontend) _
          (idle-IsWaiting prepared)
          (fetch-IsWaiting_on (finish_flush (prepare s)).frontend p p.imem_resp refl
            (finish_flush-IsWaiting (prepare s) prepared)),
      if_apply (λ (t : BoomCoreState × PipeSignals). t.1.imem_resp)
            (is_exception (prepare s).rob.state) _ _
          ∙ ap₂ (λ (b : Bool) (q : List ImemResponse). if b then p.imem_resp else q)
              (ap is_exception (prepare-state s))
              (fetch-reads (finish_flush (prepare s)).frontend p p.imem_resp refl),
    )

word_aligned_lem : (a : ℕ) → a < 2 ^ 64 → word_aligned a + a % 4 ≡ a
word_aligned_lem a h = omega (
  arith,
  bit_and_digit a (2 ^ 64 - 4),
  bit_and_digit (a / 2) (2 ^ 63 - 2),
  bit_and-low_mask 62 (a / 2 / 2),
)

-- After a mispredict, outside an exception, the front end asks in the same cycle for the instruction at
-- the target, rounded down to a multiple of four, whatever request was outstanding; its number is the
-- next one. It needs the machine to be out of reset and room in the stream of requests.
pub frontend_module-redirects :
    (s : BoomCoreState) (p : PipeSignals)
    → s.brupdate.valid ≡ true
    → s.brupdate.mispredict ≡ true
    → s.frontend.reset_done ≡ true
    → is_exception s.rob.state ≡ false
    → full p.imem_req ≡ false
    → s.brupdate.jalr_target < 2 ^ 64
    → (frontend_module s p).1.imem_req
      ≡ write p.imem_req (record imem_request_init {
        address = s.brupdate.jalr_target - s.brupdate.jalr_target % 4;
        fetch_id = s.frontend.fetch_id;
      })
unfolding frontend_module prepare redirect leave_reset note_flush finish_flush fetch drop_packet
    send_request
frontend_module-redirects s p v m r x room small =
    ground (arith, word_aligned_lem s.brupdate.jalr_target small)
