-- ===== src/Tests/Top.antt =====
-- The loop of src/boom_core_top.cpp from reset, with one answer of the instruction memory.
use boom.Base.{arith, false, ◌∷◌, []}
use boom.Types.Messages.{ImemResponse}
use boom.Top.{Ports, run, power_on}
use boom.Top.Counting.{IsCounted, run-IsCounted}
use boom.Top.Buffer.{run-IsValid}
use boom.Rob.Queue.{IsValid}

-- `addi a0, x0, 5` in answer to the first fetch.
abbrev first_answer : ImemResponse
first_answer = record {
  address = 0x10040;
  fetch_id = 0;
  instruction = 0x00500513;
  exception = false;
  exc_cause = 0;
}

abbrev one_answer : Ports
one_answer = record {
  imem_req_out = [];
  imem_resp_in = first_answer ∷ [];
  dmem_req_out = [];
  dmem_resp_in = [];
  commit_trace_out = [];
  io_success = false;
  io_halted = false;
  io_trap = false;
  io_cycle_valid = false;
  io_cycle = 0;
  io_instret = 0;
}

run-IsValid_example : IsValid (run 6 (power_on one_answer)).core.rob
run-IsValid_example = run-IsValid 6 one_answer

run-IsCounted_example : IsCounted 0 6 (run 6 (power_on one_answer))
run-IsCounted_example = run-IsCounted 6 one_answer (omega arith)
