-- ===== src/Frontend.antt =====
-- src/frontend.cpp: the fetch state machine. Each paragraph of `frontend_module` is one function.
pub mod Matching
use boom.Base.{
  ℕ, ◌+◌, ◌-◌, ◌^◌, bit_and, u32, u64, Bool, true, false, not, ◌&&◌, ◌==◌, if◌then◌else◌, List, [],
  ◌∷◌,
}
use boom.Config.{reset_vector}
use boom.Types.Codes.{RobState, rob_exception}
use boom.Types.Uop.{micro_op_init}
use boom.Types.Messages.{ImemRequest, imem_request_init, ImemResponse}
use boom.Pipe.{PipeSignals, write, full}
use boom.State.{BoomCoreState, FrontendState}

abbrev pub is_exception : RobState → Bool
is_exception rob_exception = true
is_exception _ = false

-- `& ~0x3ULL`
abbrev pub word_aligned : ℕ → ℕ
word_aligned a = bit_and a (2 ^ 64 - 4)

unfoldable pub note_flush : BoomCoreState → BoomCoreState
note_flush s =
    if s.global_flush
    then record s {
      frontend = record s.frontend {
        flush = true;
        request_sent = false;
        fetch_packet_valid = false;
      };
    }
    else s

unfoldable pub leave_reset : BoomCoreState → BoomCoreState
leave_reset s =
    if not s.frontend.reset_done
    then record s {
      frontend = record s.frontend {
        pc = reset_vector;
        fetch_id = 0;
        reset_done = true;
        request_sent = false;
      };
    }
    else s

unfoldable pub redirect : BoomCoreState → BoomCoreState
redirect s =
    if s.brupdate.valid && s.brupdate.mispredict
    then record s {
      frontend = record s.frontend {
        pc = word_aligned s.brupdate.jalr_target;
        request_sent = false;
        response_received = false;
        fetch_packet_valid = false;
        flush = false;
      };
      global_flush = false;
    }
    else s

unfoldable pub finish_flush : BoomCoreState → BoomCoreState
finish_flush s =
    if s.frontend.flush
    then record s {
      frontend = record s.frontend {
        pc = if s.brupdate.valid then word_aligned s.brupdate.jalr_target else s.frontend.pc;
        request_sent = false;
        response_received = false;
        fetch_packet_valid = false;
        flush = false;
      };
      global_flush = false;
    }
    else s

pub drop_packet : FrontendState → FrontendState
drop_packet fe =
    if not fe.request_sent && fe.fetch_packet_valid
    then record fe { response_received = false; fetch_packet_valid = false }
    else fe

pub send_request : FrontendState → List ImemRequest → FrontendState × List ImemRequest
send_request fe q =
    if not fe.request_sent && not (full q)
    then (
      record fe {
        pending_fetch_id = fe.fetch_id;
        fetch_id = u32 (fe.fetch_id + 1);
        request_sent = true;
      },
      write q (record imem_request_init { address = fe.pc; fetch_id = fe.fetch_id; kill = false }),
    )
    else (fe, q)

pub read_response : FrontendState → List ImemResponse → FrontendState × List ImemResponse
read_response fe [] = (fe, [])
read_response fe (resp ∷ q) =
    if fe.request_sent && resp.fetch_id == fe.pending_fetch_id
    then (
      record fe {
        resp_address = resp.address;
        resp_instruction = resp.instruction;
        resp_exception = resp.exception;
        resp_exc_cause = resp.exc_cause;
        response_received = true;
        request_sent = false;
      },
      q,
    )
    else (fe, q)

pub make_packet : FrontendState → FrontendState
make_packet fe =
    if fe.response_received && not fe.request_sent
    then record fe {
      fetch_uop = record micro_op_init {
        debug_pc = fe.resp_address;
        inst = fe.resp_instruction;
        is_rvc = false;
      };
      fetch_packet_valid = true;
      pc = u64 (fe.resp_address + 4);
      response_received = false;
    }
    else record fe { fetch_packet_valid = false }

-- Lines 48 to 88, after the flush: send a request, read a response, hand a packet on.
unfoldable pub fetch : FrontendState → PipeSignals → FrontendState × PipeSignals
fetch fe p =
    let (sent, req) = send_request (drop_packet fe) p.imem_req in
    let (got, resp) = read_response sent p.imem_resp in
    (make_packet got, record p { imem_req = req; imem_resp = resp })

-- Lines 11 to 31, in their order.
unfoldable pub prepare : BoomCoreState → BoomCoreState
prepare s = redirect (leave_reset (note_flush s))

unfoldable pub frontend_module : BoomCoreState → PipeSignals → BoomCoreState × PipeSignals
frontend_module s p =
    let t = prepare s in
    if is_exception t.rob.state
    then (record t { frontend = record t.frontend { fetch_packet_valid = false } }, p)
    else (
      record (finish_flush t) { frontend = (fetch (finish_flush t).frontend p).0 },
      (fetch (finish_flush t).frontend p).1,
    )
