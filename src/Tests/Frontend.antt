-- ===== src/Tests/Frontend.antt =====
-- The front end of src/frontend.cpp around one request.
use boom.Base.{
  ◌+◌, ◌-◌, ◌%◌, ◌≡◌, refl, arith, u64, true, false, ◌&&◌, ◌==◌, if◌then◌else◌, [], ◌∷◌,
}
use boom.Types.Messages.{ImemResponse, imem_request_init}
use boom.Pipe.{PipeSignals, pipe_signals_init, write}
use boom.State.{BoomCoreState, boom_core_state_init, FrontendState}
use boom.Frontend.{fetch, frontend_module, is_exception}
use boom.Frontend.Matching.{
  IsWaiting, unread, asks, awaited_id, fetch_response, frontend_module-IsWaiting,
  frontend_module-redirects,
}

-- Request 6 is outstanding.
abbrev asked : FrontendState
asked = record boom_core_state_init.frontend {
  pc = 0x80000018;
  fetch_id = 7;
  pending_fetch_id = 6;
  request_sent = true;
  reset_done = true;
}

asked-IsWaiting : IsWaiting asked
asked-IsWaiting = record { number = λ e. refl; consumed = refl }

abbrev answer : ImemResponse
answer = record {
  address = 0x80000018;
  fetch_id = 6;
  instruction = 0x00500513;
  exception = false;
  exc_cause = 0;
}

abbrev answered : PipeSignals
answered = record pipe_signals_init { imem_resp = answer ∷ [] }

fetch_response_example :
    let (fe', p') = fetch asked answered in
    let hit = asks asked answered.imem_req && answer.fetch_id == awaited_id asked in
    (fe'.fetch_packet_valid ≡ hit)
    × (p'.imem_resp ≡ [])
    × (hit ≡ true
        → (fe'.fetch_uop.debug_pc ≡ answer.address)
          × (fe'.fetch_uop.inst ≡ answer.instruction)
          × (fe'.pc ≡ u64 (answer.address + 4))
          × (fe'.request_sent ≡ false))
    × (hit ≡ false → (fe'.pc ≡ asked.pc) × (fe'.request_sent ≡ asks asked answered.imem_req))
fetch_response_example = fetch_response asked answered answer [] asked-IsWaiting refl

abbrev fetching : BoomCoreState
fetching = record boom_core_state_init { frontend = asked }

frontend_module-IsWaiting_example :
    IsWaiting (frontend_module fetching answered).0.frontend
    × ((frontend_module fetching answered).1.imem_resp ≡ (
        if is_exception fetching.rob.state then answered.imem_resp else unread answered.imem_resp))
frontend_module-IsWaiting_example = frontend_module-IsWaiting fetching answered asked-IsWaiting

-- A jump to 0x80000102 was executed.
abbrev jumped : BoomCoreState
jumped = record fetching {
  brupdate = record fetching.brupdate { valid = true; mispredict = true; jalr_target = 0x80000102 };
}

frontend_module-redirects_example :
    (frontend_module jumped answered).1.imem_req
    ≡ write [] (record imem_request_init { address = 0x80000102 - 0x80000102 % 4; fetch_id = 7 })
frontend_module-redirects_example =
    frontend_module-redirects jumped answered refl refl refl refl refl (omega arith)
