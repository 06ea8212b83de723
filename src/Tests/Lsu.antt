-- ===== src/Tests/Lsu.antt =====
-- Loads of src/lsu.cpp at concrete addresses.
use boom.Base.{◌≡◌, refl, arith, true, false, ◌!=◌, if◌then◌else◌, set, ◌⊎◌}
use boom.Types.Entries.{RobEntry, rob_entry_init}
use boom.Pipe.{pipe_signals_init}
use boom.State.{BoomCoreState, boom_core_state_init}
use boom.Lsu.Value.{load_value}
use boom.Lsu.Value.Bytes.{load_value_lem, bytes_at, sign_extended}
use boom.Types.Messages.{DmemResponse}
use boom.Lsu.Issue.{
  issue_loads, try_issue_load, entry_at, may_issue, older_store_in_rob, store_before,
}
use boom.Lsu.{accept_response, nonzero_or}
use boom.Lsu.Issue.Progress.{issue_loads_progress}
use boom.Lsu.RoundTrip.{load_roundtrip}
use boom.Lsu.Issue.Ordering.{issue_loads_ordered, Sent}

-- `lb` of the byte 0xF3 at offset 3.
load_value_lem_example : load_value 0x11111111F3222222 0x80001003 0 true ≡ (
    if true
    then sign_extended 0 (bytes_at 0x11111111F3222222 0x80001003 0)
    else bytes_at 0x11111111F3222222 0x80001003 0)
load_value_lem_example = load_value_lem 0x11111111F3222222 0x80001003 0 true (omega arith)

-- A load at index 1 of a buffer whose head is the last index.
abbrev waiting_load : RobEntry
waiting_load = record rob_entry_init {
  valid = true;
  is_load = true;
  memory_valid = true;
  memory_address = 0x80001000;
  memory_size = 3;
}

abbrev one_load : BoomCoreState
one_load = record boom_core_state_init {
  rob = record boom_core_state_init.rob {
    entries = set boom_core_state_init.rob.entries 1 waiting_load;
    head = 31;
    tail = 2;
  };
}

issue_loads_ordered_example :
    (issue_loads 32 0 one_load pipe_signals_init ≡ (one_load, pipe_signals_init))
    ⊎ Sent one_load pipe_signals_init (issue_loads 32 0 one_load pipe_signals_init)
issue_loads_ordered_example = issue_loads_ordered 32 0 one_load pipe_signals_init (omega arith)

-- The answer to the first request.
abbrev first_answer : DmemResponse
first_answer = record {
  transaction_id = 1;
  data_ = 0x1122334455667788;
  read_data = 0;
  exception = false;
  exc_cause = 0;
  exception_cause = 0;
}

load_roundtrip_example :
    let e = entry_at one_load 1 in
    let d = nonzero_or first_answer.read_data first_answer.data_ in
    let v = load_value d e.memory_address e.memory_size e.signed_load in
    let u = accept_response first_answer (try_issue_load one_load pipe_signals_init 1).0 in
    (u.lsu.load_response_pending ≡ false)
    × ((entry_at u 1).memory_completed ≡ true)
    × ((entry_at u 1).busy ≡ false)
    × ((entry_at u 1).memory_data ≡ v)
    × (u.int_rf ≡ (
        if e.uop.rename.pdst != 0
        then set one_load.int_rf e.uop.rename.pdst v
        else one_load.int_rf))
unfolding may_issue older_store_in_rob store_before
load_roundtrip_example =
    load_roundtrip one_load pipe_signals_init 1 first_answer refl (omega arith) refl refl refl

issue_loads_progress_example :
    (issue_loads 32 0 one_load pipe_signals_init).0.lsu.load_response_pending ≡ true
unfolding may_issue older_store_in_rob store_before
issue_loads_progress_example =
    issue_loads_progress 1 one_load pipe_signals_init (omega arith) (omega arith) refl
