-- ===== src/Tb/Prefix/Program.antt =====
-- `run_program` of tb/differential/hls_prefix_trace_tb.cpp, from the loaded memory on.
use boom.Base.{
  ℕ, zero, suc, ◌+◌, u32, Bool, true, false, not, ◌&&◌, ◌||◌, ◌==◌, ◌!=◌, ltb, if◌then◌else◌, List,
  [], ◌∷◌,
}
use boom.Types.Codes.{dmem_store}
use boom.Types.Messages.{ImemRequest, ImemResponse, DmemRequest, DmemResponse}
use boom.Types.Entries.{CommitEntry}
use boom.Pipe.{PipeSignals, pipe_signals_init, write, full}
use boom.State.{AluResult, BoomCoreState, boom_core_state_init}
use boom.Core.{boom_core_step}
use boom.Tb.Prefix.{
  ProgramSpec, entry_pc, tohost_addr, max_cycles, IdealMem, read, read_beat, write_sized,
  is_control_inst, Status, running, complete_tohost, prefix_complete, complete_incomplete,
  prefix_incomplete, metadata, branch_event, commit_event, tohost, unsupported_boundary, Log, emit,
}

abbrev fetched : IdealMem → ImemRequest → ImemResponse
fetched m r = record {
  address = r.address;
  fetch_id = r.fetch_id;
  instruction = read m r.address;
  exception = false;
  exc_cause = 0;
}

unfoldable pub answer_fetch : IdealMem → List ImemRequest → PipeSignals → PipeSignals
answer_fetch m [] p = p
answer_fetch m (r ∷ rest) p = record p {
  imem_req = rest;
  imem_resp = if full p.imem_resp then p.imem_resp else write p.imem_resp (fetched m r);
}

-- The row of a branch, jump or call among the results of the cycle.
unfoldable pub log_branch : ℕ → AluResult → Log → Log
log_branch cycle r l =
    if not r.valid || not (is_control_inst r.uop.inst) || ltb r.uop.debug_pc entry_pc
    then l
    else emit l (branch_event cycle r)

unfoldable pub log_commit : ℕ → CommitEntry → Log → Log
log_commit cycle ce l =
    if ltb ce.pc entry_pc
    then l
    else (let e = emit l (commit_event cycle ce) in
        record e { prefix_commits = e.prefix_commits + 1 })

-- The commit records while the target is not reached, and those left in the stream.
unfoldable pub log_commits : ℕ → ℕ → List CommitEntry → Log → Log × List CommitEntry
unfolding log_commit
log_commits target cycle [] l = (l, [])
log_commits target cycle (ce ∷ ces) l =
    let rest = log_commits target cycle ces (log_commit cycle ce l) in
    if ltb l.prefix_commits target then rest else (l, ce ∷ ces)

-- `write_data ? write_data : data`, and the mask in the same way.
abbrev either_nonzero : ℕ → ℕ → ℕ
either_nonzero a b = if a != 0 then a else b

unfoldable pub log_store : ℕ → DmemRequest → Log → Log
log_store cycle req l =
    let store_data = either_nonzero req.write_data req.data_ in
    if req.address == tohost_addr
    then record (emit l (tohost cycle req store_data (either_nonzero req.write_mask req.mask))) {
      saw_tohost = store_data == 1;
    }
    else l

abbrev loaded : IdealMem → DmemRequest → DmemResponse
loaded m req = record {
  transaction_id = req.transaction_id;
  data_ = read_beat m req.address;
  read_data = read_beat m req.address;
  exception = false;
  exc_cause = 0;
  exception_cause = 0;
}

pub record Served : Type 0 where
  pub mem : IdealMem
  pub dmem_resp : List DmemResponse
  pub log : Log

-- All requests of the core, oldest first.
unfoldable pub serve : ℕ → List DmemRequest → Served → Served
unfolding log_store
serve cycle [] s = s
serve cycle (req ∷ rest) s = serve cycle rest (
    if req.is_store || req.command == dmem_store
    then record s {
      mem = write_sized s.mem req.address (either_nonzero req.write_data req.data_) req.size;
      log = log_store cycle req s.log;
    }
    else record s {
      dmem_resp = if full s.dmem_resp then s.dmem_resp else write s.dmem_resp (loaded s.mem req);
    })

pub record Run : Type 0 where
  pub state : BoomCoreState
  pub pipe : PipeSignals
  pub mem : IdealMem
  pub log : Log

abbrev pub stepped : Run → BoomCoreState × PipeSignals
stepped r = boom_core_step r.state (answer_fetch r.mem r.pipe.imem_req r.pipe)

-- One round of the loop.
unfoldable pub round : ℕ → Run → Run
unfolding log_branch log_commits serve
round target r =
    let (s, p) = stepped r in
    let (l, trace) =
      log_commits target s.csr.cycle p.commit_trace
        (log_branch s.csr.cycle s.execute.alu_result r.log) in
    let served =
      serve s.csr.cycle p.dmem_req (record { mem = r.mem; dmem_resp = p.dmem_resp; log = l }) in
    record {
      state = s;
      pipe = record p { commit_trace = trace; dmem_req = []; dmem_resp = served.dmem_resp };
      mem = served.mem;
      log = served.log;
    }

unfoldable pub run_from : ℕ → ℕ → Run → Run
unfolding round
run_from zero target r = r
run_from (suc n) target r =
    let rest = run_from n target (round target r) in
    if ltb r.log.prefix_commits target && not r.log.saw_tohost then rest else r

abbrev started : BoomCoreState
started = record boom_core_state_init {
  frontend = record boom_core_state_init.frontend {
    pc = entry_pc;
    reset_done = true;
    request_sent = false;
    response_received = false;
    fetch_packet_valid = false;
  };
}

abbrev pub target_commits : Bool → ProgramSpec → ℕ
target_commits complete program = program.prefix_commits + (if complete then 1 else 0)

-- The run before its first cycle, with the first row.
abbrev pub first_run : IdealMem → Run
first_run mem = record {
  state = started;
  pipe = pipe_signals_init;
  mem = mem;
  log =
      emit (record { rows = []; seq = 0; prefix_commits = 0; saw_tohost = false })
        (metadata 0 0 running);
}

unfoldable pub loop : Bool → ProgramSpec → IdealMem → Run
unfolding run_from
loop complete program mem = run_from max_cycles (target_commits complete program) (first_run mem)

-- Whether the program passed.
unfoldable pub verdict : Bool → ProgramSpec → Log → Bool
verdict complete program l =
    not complete && l.prefix_commits == program.prefix_commits
    || complete && l.saw_tohost && l.prefix_commits == target_commits complete program

unfoldable pub final_status : Bool → Bool → Status
final_status complete ok =
    if ok
    then if complete then complete_tohost else prefix_complete
    else if complete
    then complete_incomplete
    else prefix_incomplete

-- The rows behind the loop.
unfoldable pub finish : Bool → ProgramSpec → ℕ → Log → Log
unfolding verdict final_status
finish complete program cycle l =
    emit
      (if not complete && l.prefix_commits == program.prefix_commits
        then emit l (unsupported_boundary cycle program.unsupported_pc program.unsupported_inst)
        else l)
      (metadata (u32 cycle) l.prefix_commits (final_status complete (verdict complete program l)))

-- Whether the program passed, and the file.
unfoldable pub run_program : Bool → ProgramSpec → IdealMem → Bool × Log
unfolding loop verdict finish
run_program complete program mem =
    let r = loop complete program mem in
    (verdict complete program r.log, finish complete program r.state.csr.cycle r.log)
