-- ===== src/Top.antt =====
-- src/boom_core_top.cpp: the endless loop around the core, as a step that moves at most one message of
-- each stream across the boundary, and a run of any number of steps.
pub mod Buffer
pub mod Counting
use boom.Base.{ℕ, zero, suc, Bool, true, if◌then◌else◌, List, [], ◌∷◌}
use boom.Types.Entries.{CommitEntry}
use boom.Types.Messages.{ImemRequest, ImemResponse, DmemRequest, DmemResponse}
use boom.Pipe.{PipeSignals, pipe_signals_init, write, full}
use boom.State.{BoomCoreState, boom_core_state_init}
use boom.Core.{boom_core_step}

-- The streams and signals at the boundary.
pub record Ports : Type 0 where
  pub imem_req_out : List ImemRequest
  pub imem_resp_in : List ImemResponse
  pub dmem_req_out : List DmemRequest
  pub dmem_resp_in : List DmemResponse
  pub commit_trace_out : List CommitEntry
  pub io_success : Bool
  pub io_halted : Bool
  pub io_trap : Bool
  pub io_cycle_valid : Bool
  pub io_cycle : ℕ
  pub io_instret : ℕ

pub record System : Type 0 where
  pub core : BoomCoreState
  pub pipe : PipeSignals
  pub ports : Ports

-- `if (!a.empty() && !b.full()) b.write(a.read())`, giving `a` and `b`.
module _ {ℓ} {A : Type ℓ} where
  unfoldable pub move_in : List A → List A → List A × List A
  move_in [] b = ([], b)
  move_in (x ∷ a) b = if full b then (x ∷ a, b) else (a, write b x)

  -- `if (!a.empty()) b.write(a.read())`, giving `a` and `b`.
  unfoldable pub move_out : List A → List A → List A × List A
  move_out [] b = ([], b)
  move_out (x ∷ a) b = (a, write b x)

unfoldable pub core_cycle : System → System
core_cycle y =
    let (imem_in, imem_resp) = move_in y.ports.imem_resp_in y.pipe.imem_resp in
    let (dmem_in, dmem_resp) = move_in y.ports.dmem_resp_in y.pipe.dmem_resp in
    let (s, p) =
      boom_core_step y.core (record y.pipe { imem_resp = imem_resp; dmem_resp = dmem_resp }) in
    let (imem_req, imem_out) = move_out p.imem_req y.ports.imem_req_out in
    let (dmem_req, dmem_out) = move_out p.dmem_req y.ports.dmem_req_out in
    let (trace, trace_out) = move_out p.commit_trace y.ports.commit_trace_out in
    record {
      core = s;
      pipe = record p { imem_req = imem_req; dmem_req = dmem_req; commit_trace = trace };
      ports = record {
        imem_req_out = imem_out;
        imem_resp_in = imem_in;
        dmem_req_out = dmem_out;
        dmem_resp_in = dmem_in;
        commit_trace_out = trace_out;
        io_success = s.io_success;
        io_halted = s.io_halted;
        io_trap = s.io_trap;
        io_cycle_valid = true;
        io_cycle = s.csr.cycle;
        io_instret = s.csr.instret;
      };
    }

-- The first `n` rounds of the loop.
unfoldable pub run : ℕ → System → System
run zero y = y
run (suc n) y = run n (core_cycle y)

abbrev pub power_on : Ports → System
power_on ports = record { core = boom_core_state_init; pipe = pipe_signals_init; ports = ports }
