-- ===== src/Tb/Bench.antt =====
-- The runs of the core in tb/differential/lsu_minimal_tests.cpp (`run`) and tb/tb_boom_core.cpp
-- (`run_program`, whose `IdealMem` reads as `IMem` does).
pub mod Counting
use boom.Base.{
  ℕ, zero, suc, ◌+◌, Bool, true, false, not, ◌&&◌, ◌||◌, ◌==◌, ltb, if◌then◌else◌, List, [], ◌∷◌,
  ◌++◌, length, get_or,
}
use boom.Types.Messages.{ImemRequest, ImemResponse}
use boom.Types.Entries.{CommitEntry}
use boom.Pipe.{PipeSignals, pipe_signals_init, write, full}
use boom.State.{BoomCoreState, boom_core_state_init}
use boom.Core.{boom_core_step}
use boom.Tb.Memory.{IMem, read_imem, DMemModel, step}

abbrev fetched : IMem → ImemRequest → ImemResponse
fetched m r = record {
  address = r.address;
  fetch_id = r.fetch_id;
  instruction = read_imem m r.address;
  exception = false;
  exc_cause = 0;
}

-- The answer of the instruction memory: line 93 of the one, 60 to 70 of the other.
unfoldable pub answer_fetch : IMem → List ImemRequest → PipeSignals → PipeSignals
answer_fetch m [] p = p
answer_fetch m (r ∷ rest) p = record p {
  imem_req = rest;
  imem_resp = if full p.imem_resp then p.imem_resp else write p.imem_resp (fetched m r);
}

unfoldable pub any_store : List CommitEntry → Bool
any_store [] = false
any_store (ce ∷ ces) = let rest = any_store ces in ce.is_store || rest

-- `RunResult` with the streams and the flag of `run`.
pub record Bench : Type 0 where
  pub state : BoomCoreState
  pub pipe : PipeSignals
  pub commits : List CommitEntry
  pub dmem : DMemModel
  pub store_commit_seen : Bool

abbrev pub power_up : DMemModel → Bench
power_up dmem = record {
  state = boom_core_state_init;
  pipe = pipe_signals_init;
  commits = [];
  dmem = dmem;
  store_commit_seen = false;
}

-- The core after the fetch is answered: lines 93 and 94.
unfoldable pub stepped : IMem → Bench → BoomCoreState × PipeSignals
stepped m b = boom_core_step b.state (answer_fetch m b.pipe.imem_req b.pipe)

-- One round of `run`: lines 92 to 96.
unfoldable pub bench_cycle : IMem → Bench → Bench
bench_cycle m b =
    let (s, p) = stepped m b in
    let seen = b.store_commit_seen || any_store p.commit_trace in
    let (dmem, q) = step b.dmem (record p { commit_trace = [] }) seen in
    record {
      state = s;
      pipe = q;
      commits = b.commits ++ p.commit_trace;
      dmem = dmem;
      store_commit_seen = seen;
    }

-- Lines 97 and 98.
abbrev pub stops : Bool → Bench → Bool
stops stop_on_tohost b =
    stop_on_tohost && b.dmem.saw_tohost || b.state.io_success || b.state.io_trap

-- The loop of `run` from a bench on.
unfoldable pub run_from : ℕ → IMem → Bool → Bench → Bench
run_from zero m stop_on_tohost b = b
run_from (suc n) m stop_on_tohost b =
    let c = bench_cycle m b in
    let rest = run_from n m stop_on_tohost c in if stops stop_on_tohost c then c else rest

unfoldable pub run : IMem → DMemModel → ℕ → Bool → Bench
unfolding run_from
run m dmem max_cycles stop_on_tohost = run_from max_cycles m stop_on_tohost (power_up dmem)

-- The value of the last commit to a register.
unfoldable pub last_from : ℕ → List CommitEntry → ℕ → ℕ
last_from v [] rd = v
last_from v (ce ∷ ces) rd = last_from (if ce.rd_valid && ce.rd == rd then ce.rd_value else v) ces rd

unfoldable pub last_rd : List CommitEntry → ℕ → ℕ
unfolding last_from
last_rd commits rd = last_from 0 commits rd

-- How `run_program` ends: at a trap, or with the core and the number of commits.
pub data Outcome : Type 0 where
  trapped : Outcome
  ended : BoomCoreState → ℕ → Outcome

-- Its loop, from a core, its streams and the commits so far on.
unfoldable pub program_from : ℕ → IMem → BoomCoreState → PipeSignals → ℕ → Outcome
program_from zero m s p commits = ended s commits
program_from (suc n) m s p commits =
    let (t, q) = boom_core_step s (answer_fetch m p.imem_req p) in
    let seen = commits + length q.commit_trace in
    let rest = program_from n m t (record q { commit_trace = [] }) seen in
    if t.io_trap && not t.io_success then trapped else if t.io_success then ended t seen else rest

-- A register through the committed map.
abbrev pub committed_value : BoomCoreState → ℕ → ℕ
committed_value s r =
    let p = get_or s.rename.int_map_table.committed_map_table r 0 in
    if ltb 0 p then get_or s.int_rf p 0 else 0

-- The checks behind the loop.
unfoldable pub passes : Outcome → ℕ → ℕ → ℕ → Bool
passes trapped x1 x2 x3 = false
passes (ended s commits) x1 x2 x3 =
    ltb 0 commits
    && committed_value s 1 == x1
    && committed_value s 2 == x2
    && committed_value s 3 == x3
    && ltb 0 s.csr.instret
    && ltb 0 s.csr.cycle

unfoldable pub run_program : IMem → ℕ → ℕ → ℕ → ℕ → Bool
unfolding program_from passes
run_program m max_cycles x1 x2 x3 =
    passes (program_from max_cycles m boom_core_state_init pipe_signals_init 0) x1 x2 x3
