-- ===== src/Sim/Driver/Ending.antt =====
-- How `main` of reference/verilator_trace/standalone_boom_trace.cpp ends, and the file that it leaves,
-- whatever the generated model does.
use Prim.{tt}
use boom.Base.{
  ℕ, zero, suc, ◌+◌, ◌≤◌, ◌<◌, ◌^◌, u64, Bool, true, false, not, ◌==◌, if◌then◌else◌, if_either,
  if_true, if_false, Option, ◌≡◌, refl, sym, ap, subst, ◌∙◌, ◌⊎◌, arith, Bool-cases, inl, inr,
}
use boom.Base.Rows.{AreNumbered, count_rows}
use boom.Sim.Memory.{SimpleMemory}
use boom.Sim.Trace.{TerminationReason, running, metadata_event, Globals, globals_init}
use boom.Sim.Trace.Numbering.{IsTraced, emit-IsTraced, trace_cycle-IsTraced}
use boom.Sim.Driver.{
  Harness, Options, observed_tohost, observed_tohost_value, trace_metadata, exit_code_of,
  half_cycle, full_cycle, reset_cycles, goes_on, run_from, started, looped, max_cycles_reached,
  main,
}

memory-IsTraced :
    (c : ℕ) (g : Globals) (m : Option SimpleMemory)
    → IsTraced c g
    → IsTraced c (record g { memory = m })
memory-IsTraced c g m h = record {
  numbered = h.numbered;
  next = h.next;
  counted_rows = h.counted_rows;
  now = h.now;
  zero_register = h.zero_register;
}

tick-IsTraced :
    (c : ℕ) (g : Globals)
    → IsTraced c g
    → IsTraced (u64 (c + 1)) (record g { cycle = u64 (g.cycle + 1) })
tick-IsTraced c g h = record {
  numbered = h.numbered;
  next = h.next;
  counted_rows = h.counted_rows;
  now = ap (λ (n : ℕ). u64 (n + 1)) h.now;
  zero_register = h.zero_register;
}

trace_metadata-IsTraced :
    (c n : ℕ) (r : TerminationReason) (code : ℕ) (g : Globals)
    → IsTraced c g
    → IsTraced c (trace_metadata n r code g)
unfolding trace_metadata
trace_metadata-IsTraced c n r code g h = emit-IsTraced c g (metadata_event g.cycle _) refl h

-- The exit code is 0 exactly for a report of success, or for a run that ended by itself without a report.
exit_code_lem :
    (tohost : Bool) (value : ℕ) (reached : Bool)
    → (exit_code_of tohost value reached == 0) ≡ (if tohost then value == 1 else not reached)
unfolding exit_code_of
exit_code_lem tohost value reached = ground arith

module _ {H : Type 0} (v : Harness H) (o : Options) where
  half_cycle-IsTraced :
      (c : ℕ) (reset done clock : Bool) (top : H) (g : Globals)
      → IsTraced c g
      → IsTraced c (half_cycle v o reset done clock top g).1
  unfolding half_cycle
  half_cycle-IsTraced c reset done clock top g h = memory-IsTraced c g _ h

  full_cycle-IsTraced :
      (c : ℕ) (traced reset done : Bool) (top : H) (g : Globals)
      → IsTraced c g
      → IsTraced (u64 (c + 1)) (full_cycle v o traced reset done top g).1
  unfolding full_cycle
  full_cycle-IsTraced c traced reset done top g h =
      tick-IsTraced c _
        (if_either (IsTraced c) traced (trace_cycle-IsTraced c o.tohost_addr _ _ both) both)
    where
      first : H × Globals
      first = half_cycle v o reset done false top g

      both : IsTraced c (half_cycle v o reset done true first.0 first.1).1
      both =
          half_cycle-IsTraced c reset done true first.0 first.1
            (half_cycle-IsTraced c reset done false top g h)

  reset_cycles-IsTraced :
      (n c : ℕ) (top : H) (g : Globals)
      → c + n < 2 ^ 64
      → IsTraced c g
      → IsTraced (c + n) (reset_cycles v o n top g).1
  unfolding reset_cycles
  reset_cycles-IsTraced zero c top g l h =
      let same : c ≡ c + 0 = omega arith in subst (λ (k : ℕ). IsTraced k g) same h
  reset_cycles-IsTraced (suc n) c top g l h =
      let next : u64 (c + 1) + n ≡ c + suc n = omega arith in
      subst (λ (k : ℕ). IsTraced k (reset_cycles v o n next_top next_g).1) next
        (reset_cycles-IsTraced n (u64 (c + 1)) next_top next_g (omega arith)
          (full_cycle-IsTraced c false true false top g h))
    where
      next_top : H
      next_top = (full_cycle v o false true false top g).0

      next_g : Globals
      next_g = (full_cycle v o false true false top g).1

  past_end :
      (c : ℕ) (top : H) (g : Globals) → o.max_cycles ≤ c → g.cycle ≡ c → goes_on v o top g ≡ false
  past_end c top g l e = ground arith

  below_end :
      (c : ℕ) (top : H) (g : Globals) → goes_on v o top g ≡ true → g.cycle ≡ c → c < o.max_cycles
  below_end c top g h e = ground arith

  -- With enough rounds the loop ends by its own test, and the file stays well formed.
  run_from_ends :
      (n c : ℕ) (top : H) (g : Globals)
      → o.max_cycles < 2 ^ 64
      → o.max_cycles ≤ c + n
      → IsTraced c g
      → (goes_on v o (run_from v o n top g).0 (run_from v o n top g).1 ≡ false)
        × ((k : ℕ) × IsTraced k (run_from v o n top g).1)
  unfolding run_from
  run_from_ends zero c top g fits l h = (past_end c top g (omega arith) h.now, (c, h))
  run_from_ends (suc n) c top g fits l h = elim (Bool-cases (goes_on v o top g)) [
    | inl e ↦
        let below = below_end c top g e h.now in
        subst P (sym (if_true _ _ e)) (
          run_from_ends n (u64 (c + 1)) next_top next_g fits (omega arith)
            (full_cycle-IsTraced c true false (not o.disable_assert_stops) top g h))
    | inr e ↦ subst P (sym (if_false _ _ e)) (e, (c, h))
  ]
    where
      next_top : H
      next_top = (full_cycle v o true false (not o.disable_assert_stops) top g).0

      next_g : Globals
      next_g = (full_cycle v o true false (not o.disable_assert_stops) top g).1

      P : H × Globals → Type 0
      P r = (goes_on v o r.0 r.1 ≡ false) × ((k : ℕ) × IsTraced k r.1)

  start-IsTraced : IsTraced 0 globals_init
  unfolding AreNumbered count_rows
  start-IsTraced = record {
    numbered = tt;
    next = refl;
    counted_rows = refl;
    now = refl;
    zero_register = refl;
  }

  reset_done-IsTraced :
      (c : ℕ) (g : Globals) → IsTraced c g → IsTraced c (record g { after_reset = true })
  reset_done-IsTraced c g h = record {
    numbered = h.numbered;
    next = h.next;
    counted_rows = h.counted_rows;
    now = h.now;
    zero_register = h.zero_register;
  }

  started-IsTraced : (top : H) → IsTraced 100 (started v o top).1
  unfolding started
  started-IsTraced top = trace_metadata-IsTraced 100 o.max_cycles running 0 _ (
      reset_done-IsTraced 100 _ (
        reset_cycles-IsTraced 100 0 _ _ (omega arith)
          (memory-IsTraced 0 globals_init _ start-IsTraced)))

  abbrev pub end_top : H → H
  end_top top = (looped v o top).0

  abbrev pub end_globals : H → Globals
  end_globals top = (looped v o top).1

  looped_ends :
      (top : H)
      → o.max_cycles < 2 ^ 64
      → (goes_on v o (end_top top) (end_globals top) ≡ false)
        × ((k : ℕ) × IsTraced k (end_globals top))
  unfolding looped
  looped_ends top fits =
      run_from_ends o.max_cycles 100 (started v o top).0 (started v o top).1 fits (omega arith)
        (started-IsTraced top)

  -- The limit counts as reached only where nothing else ended the loop.
  reached-ended :
      (top : H) (g : Globals)
      → goes_on v o top g ≡ false
      → observed_tohost g ≡ false
      → not (max_cycles_reached v o top g) ≡ v.got_finish top
  unfolding max_cycles_reached
  reached-ended top g h t = ground arith

  -- Whatever the generated model does, with a limit below 2 ^ 64: the loop ends by its own test within its
  -- rounds; the exit code is 0 exactly if `tohost` was observed with the value 1 or, without it, the model
  -- finished; and the file has its rows numbered in the order in which they stand, as a 64-bit counter
  -- does, the commit records among them are counted likewise, and register 0 of the architectural
  -- registers is 0.
  pub main_ends :
      (top : H)
      → o.max_cycles < 2 ^ 64
      → (goes_on v o (end_top top) (end_globals top) ≡ false)
        × (((main v o top).0 == 0) ≡ (
            if observed_tohost (end_globals top)
            then observed_tohost_value (end_globals top) == 1
            else v.got_finish (end_top top)))
        × ((k : ℕ) × IsTraced k (main v o top).1)
  unfolding main
  main_ends top fits = (
    (looped_ends top fits).0,
    exit_code_lem (observed_tohost (end_globals top)) (observed_tohost_value (end_globals top))
          (max_cycles_reached v o (end_top top) (end_globals top))
        ∙ by_tohost (Bool-cases (observed_tohost (end_globals top))),
    written (looped_ends top fits).1,
  )
    where
      written : ((k : ℕ) × IsTraced k (end_globals top)) → (k : ℕ) × IsTraced k (main v o top).1
      written e = (e.0, trace_metadata-IsTraced e.0 o.max_cycles _ _ _ e.1)

      by_tohost :
          (observed_tohost (end_globals top) ≡ true) ⊎ (observed_tohost (end_globals top) ≡ false)
          → (if observed_tohost (end_globals top)
              then observed_tohost_value (end_globals top) == 1
              else not (max_cycles_reached v o (end_top top) (end_globals top)))
            ≡ (if observed_tohost (end_globals top)
                then observed_tohost_value (end_globals top) == 1
                else v.got_finish (end_top top))
      by_tohost (inl e) = if_true _ _ e ∙ sym (if_true _ _ e)
      by_tohost (inr e) =
          if_false _ _ e
          ∙ reached-ended (end_top top) (end_globals top) (looped_ends top fits).0 e
          ∙ sym (if_false _ _ e)
