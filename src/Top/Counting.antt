-- ===== src/Top/Counting.antt =====
-- The counters and the trace in the states that the loop of src/boom_core_top.cpp reaches.
use boom.Base.{
  ℕ, zero, suc, ◌+◌, ◌≤◌, ◌<◌, ◌^◌, ◌≡◌, refl, ap, ◌∙◌, arith, [], length, length-append, subst,
  leb,
}
use boom.Pipe.{PipeSignals}
use boom.State.{BoomCoreState}
use boom.Core.{boom_core_step}
use boom.Core.Counting.{Recorded, counted, uncounted, boom_core_step-Recorded, cycle-boom_core_step}
use boom.Top.{System, Ports, core_cycle, run, power_on, move_in, move_out}

-- What the core of a round gives.
abbrev stepped : System → BoomCoreState × PipeSignals
stepped y = boom_core_step y.core (record y.pipe {
  imem_resp = (move_in y.ports.imem_resp_in y.pipe.imem_resp).1;
  dmem_resp = (move_in y.ports.dmem_resp_in y.pipe.dmem_resp).1;
})

-- The trace inside is empty between the rounds; outside there is a record for each counted instruction,
-- behind the `before` that were there at reset; the core counts the rounds.
pub record IsCounted (before rounds : ℕ) (y : System) : Type 0 where
  inside : y.pipe.commit_trace ≡ []
  outside : length y.ports.commit_trace_out ≡ before + y.core.csr.instret
  at_most_one : y.core.csr.instret ≤ rounds
  cycles : y.core.csr.cycle ≡ rounds

module _ (before rounds : ℕ) (y : System) (h : IsCounted before rounds y)
    (fits : suc rounds < 2 ^ 64) where
  trace_inside :
      (core_cycle y).pipe.commit_trace
      ≡ (move_out (stepped y).1.commit_trace y.ports.commit_trace_out).0
  unfolding core_cycle
  trace_inside = refl

  trace_outside :
      (core_cycle y).ports.commit_trace_out
      ≡ (move_out (stepped y).1.commit_trace y.ports.commit_trace_out).1
  unfolding core_cycle
  trace_outside = refl

  next_cycles : (core_cycle y).core.csr.cycle ≡ suc rounds
  unfolding core_cycle
  next_cycles = cycle-boom_core_step y.core _ ∙ omega (arith, h.cycles)

  after_round :
      Recorded y.core.csr.instret [] (stepped y) → IsCounted before (suc rounds) (core_cycle y)
  unfolding core_cycle move_out
  after_round (counted n v t) = record {
    inside = trace_inside ∙ ap (λ tr. (move_out tr y.ports.commit_trace_out).0) t;
    outside =
        ap length (trace_outside ∙ ap (λ tr. (move_out tr y.ports.commit_trace_out).1) t)
        ∙ length-append y.ports.commit_trace_out _
        ∙ omega (arith, n, h.outside, h.at_most_one);
    at_most_one = omega (arith, n, h.at_most_one);
    cycles = next_cycles;
  }
  after_round (uncounted n v t) = record {
    inside = trace_inside ∙ ap (λ tr. (move_out tr y.ports.commit_trace_out).0) t;
    outside =
        ap length (trace_outside ∙ ap (λ tr. (move_out tr y.ports.commit_trace_out).1) t)
        ∙ omega (arith, n, h.outside);
    at_most_one = omega (arith, n, h.at_most_one);
    cycles = next_cycles;
  }

  core_cycle-IsCounted : IsCounted before (suc rounds) (core_cycle y)
  core_cycle-IsCounted = after_round (
      subst (λ tr. Recorded y.core.csr.instret tr (stepped y)) h.inside
        (boom_core_step-Recorded y.core _ (ap (λ tr. leb 1024 (length tr)) h.inside)))

run-IsCounted_from :
    (n before rounds : ℕ) (y : System)
    → rounds + n < 2 ^ 64
    → IsCounted before rounds y
    → IsCounted before (rounds + n) (run n y)
unfolding run
run-IsCounted_from zero before rounds y fits h = subst (λ r. IsCounted before r y) (omega arith) h
run-IsCounted_from (suc n) before rounds y fits h =
    subst (λ r. IsCounted before r (run n (core_cycle y))) (omega arith)
      (run-IsCounted_from n before (suc rounds) (core_cycle y) (omega arith)
        (core_cycle-IsCounted before rounds y h (omega arith)))

-- After n cycles of the loop from reset, n below 2 ^ 64, whatever the memories answer: the cycle counter
-- is n, no record waits inside, and the trace outside has grown by exactly the number of instructions
-- counted, at most one in a cycle.
pub run-IsCounted :
    (n : ℕ) (ports : Ports)
    → n < 2 ^ 64
    → IsCounted (length ports.commit_trace_out) n (run n (power_on ports))
run-IsCounted n ports fits =
    let from_zero : 0 + n ≡ n = omega arith in
    subst (λ r. IsCounted (length ports.commit_trace_out) r (run n (power_on ports))) from_zero
      (run-IsCounted_from n (length ports.commit_trace_out) 0 (power_on ports) (omega arith)
        (record { inside = refl; outside = omega arith; at_most_one = omega arith; cycles = refl }))
