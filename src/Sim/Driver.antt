-- ===== src/Sim/Driver.antt =====
-- `main` of reference/verilator_trace/standalone_boom_trace.cpp, from the parsed arguments and the open
-- trace file on. The generated model of the core is a parameter.
pub mod Ending
use boom.Base.{
  ℕ, zero, suc, ◌+◌, ◌^◌, ◌>>>◌, bit_and, u64, Bool, true, false, not, ◌&&◌, ◌||◌, ◌==◌, ◌!=◌, ltb,
  leb, if◌then◌else◌, List, [], ◌∷◌, Option, none, some,
}
use boom.Sim.Memory.{SimpleMemory, simple_memory, watch_tohost}
use boom.Sim.Load.{load_hex, ◌>>=◌}
use boom.Sim.Trace.{
  Signals, TohostSource, no_source, memory_write, TerminationReason, running, by_tohost,
  verilator_finish, by_max_cycles, Metadata, metadata_event, Globals, globals_init, emit,
}
use boom.Sim.Trace.Cycle.{trace_cycle}

-- The inputs that `main` sets.
pub record Inputs : Type 0 where
  pub reset : Bool
  pub clock : Bool
  pub done_reset : Bool

-- The generated model with its state `H`. An evaluation calls `memory_init` and `memory_tick`, so it
-- changes the memory too.
pub record Harness (H : Type 0) : Type 0 where
  pub eval : Inputs → H → Option SimpleMemory → H × Option SimpleMemory
  pub set_ipi_0 : H → H
  pub signals : H → Signals
  pub got_finish : H → Bool

-- The arguments of the program.
pub record Options : Type 0 where
  pub tohost_addr : ℕ
  pub max_cycles : ℕ
  pub wake_hart0 : Bool
  pub disable_assert_stops : Bool

-- A file of an empty path is not loaded. `none` is an exit.
unfoldable pub memory_init : ℕ → ℕ → ℕ → Option (List (List ℕ)) → ℕ → ℕ → Option SimpleMemory
memory_init mem_size word_size line_size none loadmem_addr tohost_addr =
    simple_memory mem_size word_size line_size >>= λ m. some (watch_tohost m tohost_addr)
memory_init mem_size word_size line_size (some lines) loadmem_addr tohost_addr =
    simple_memory mem_size word_size line_size >>= λ m.
    load_hex m loadmem_addr lines >>= λ n. some (watch_tohost n tohost_addr)

unfoldable pub memory_observed_tohost : Globals → Bool
memory_observed_tohost g = seen g.memory
  where
    seen : Option SimpleMemory → Bool
    seen none = false
    seen (some m) = m.tohost_seen

unfoldable pub memory_tohost_value : Globals → ℕ
memory_tohost_value g = value g.memory
  where
    value : Option SimpleMemory → ℕ
    value none = 0
    value (some m) = m.tohost_value

unfoldable pub observed_tohost : Globals → Bool
unfolding memory_observed_tohost
observed_tohost g = g.tohost_seen || memory_observed_tohost g

unfoldable pub observed_tohost_value : Globals → ℕ
unfolding memory_observed_tohost memory_tohost_value
observed_tohost_value g =
    if g.tohost_seen
    then g.tohost_value
    else if memory_observed_tohost g
    then memory_tohost_value g
    else 0

unfoldable pub observed_tohost_source : Globals → TohostSource
unfolding memory_observed_tohost
observed_tohost_source g =
    if g.tohost_seen
    then g.tohost_source
    else if memory_observed_tohost g
    then memory_write
    else no_source

unfoldable pub trace_metadata : ℕ → TerminationReason → ℕ → Globals → Globals
trace_metadata max_cycles reason exit_code g = emit g (
    metadata_event g.cycle (record {
      commit_records = g.commit_records;
      termination_reason = reason;
      exit_code = exit_code;
      tohost_value = if observed_tohost g then some (observed_tohost_value g) else none;
      tohost_source = observed_tohost_source g;
      last_pc = if g.last_commit_pc_valid then some g.last_commit_pc else none;
      at_max_cycles = leb max_cycles g.cycle;
    }))

unfoldable pub exit_code_of : Bool → ℕ → Bool → ℕ
exit_code_of got_tohost value max_cycles_reached =
    if got_tohost
    then (let code = if value == 1 then 0 else bit_and (value >>> 1) 0x7FFFFFFF in
        if code == 0 && value != 1 then 1 else code)
    else if max_cycles_reached
    then 4
    else 0

module _ {H : Type 0} (v : Harness H) (o : Options) where
  unfoldable pub apply_standalone_injections : Globals → H → H
  apply_standalone_injections g top = if o.wake_hart0 && g.after_reset then v.set_ipi_0 top else top

  unfoldable pub half_cycle : Bool → Bool → Bool → H → Globals → H × Globals
  half_cycle reset done_reset clock top g =
      let (t, m) =
        v.eval (record { reset = reset; clock = clock; done_reset = done_reset })
          (apply_standalone_injections g top) g.memory in
      (apply_standalone_injections g t, record g { memory = m })

  unfoldable pub full_cycle : Bool → Bool → Bool → H → Globals → H × Globals
  full_cycle traced reset done_reset top g =
      let (t, n) = half_cycle reset done_reset false top g in
      let (u, p) = half_cycle reset done_reset true t n in
      let q = if traced then trace_cycle o.tohost_addr (v.signals u) p else p in
      (u, record q { cycle = u64 (q.cycle + 1) })

  unfoldable pub reset_cycles : ℕ → H → Globals → H × Globals
  reset_cycles zero top g = (top, g)
  reset_cycles (suc n) top g = let (t, p) = full_cycle false true false top g in reset_cycles n t p

  abbrev pub goes_on : H → Globals → Bool
  goes_on top g = not (v.got_finish top) && ltb g.cycle o.max_cycles && not (observed_tohost g)

  -- The loop, with `n` rounds at most.
  unfoldable pub run_from : ℕ → H → Globals → H × Globals
  run_from zero top g = (top, g)
  run_from (suc n) top g =
      let rest =
        (let (t, p) = full_cycle true false (not o.disable_assert_stops) top g in run_from n t p) in
      if goes_on top g then rest else (top, g)

  -- The model and the globals behind the reset, with the first row.
  unfoldable pub started : H → H × Globals
  started top =
      let (t, m) = v.eval (record { reset = false; clock = false; done_reset = false }) top none in
      let (u, g) = reset_cycles 100 t (record globals_init { memory = m }) in
      (u, trace_metadata o.max_cycles running 0 (record g { after_reset = true }))

  -- The end of the loop: it has `max_cycles` rounds at most.
  unfoldable pub looped : H → H × Globals
  looped top = let (t, g) = started top in run_from o.max_cycles t g

  unfoldable pub reason_of : H → Globals → TerminationReason
  reason_of top g =
      if observed_tohost g
      then by_tohost
      else if v.got_finish top
      then verilator_finish
      else by_max_cycles

  unfoldable pub max_cycles_reached : H → Globals → Bool
  max_cycles_reached top g =
      leb o.max_cycles g.cycle && not (v.got_finish top) && not (observed_tohost g)

  -- The exit code, and the globals with the file.
  unfoldable pub main : H → ℕ × Globals
  main top =
      let (t, g) = looped top in
      let code =
        exit_code_of (observed_tohost g) (observed_tohost_value g) (max_cycles_reached t g) in
      (code, trace_metadata o.max_cycles (reason_of t g) code g)
