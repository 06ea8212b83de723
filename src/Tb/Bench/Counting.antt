-- ===== src/Tb/Bench/Counting.antt =====
-- What `run` of tb/differential/lsu_minimal_tests.cpp collects.
use boom.Base.{
  ℕ, zero, suc, ◌+◌, ◌^◌, ◌≤◌, ◌<◌, u32, u64, not, Bool, ◌&&◌, if◌then◌else◌, if_either, leb, List,
  [], ◌∷◌, length, length-append, ◌≡◌, refl, ap, ◌∙◌, subst, arith,
}
use boom.Types.Messages.{ImemRequest, DmemRequest}
use boom.Pipe.{PipeSignals, full}
use boom.Core.Counting.{Recorded, counted, uncounted, boom_core_step-Recorded, cycle-boom_core_step}
use boom.Tb.Memory.{
  IMem, DMemModel, step, answer_pending, take_request, take_load, make_load_response,
}
use boom.Tb.Bench.{Bench, bench_cycle, stepped, answer_fetch, run_from, run, stops, power_up}

-- The memory models do not touch the trace.
trace-answer_fetch :
    (m : IMem) (q : List ImemRequest) (p : PipeSignals)
    → (answer_fetch m q p).commit_trace ≡ p.commit_trace
unfolding answer_fetch
trace-answer_fetch m [] p = refl
trace-answer_fetch m (r ∷ rest) p = refl

trace-make_load_response :
    (m : DMemModel) (p : PipeSignals) (req : DmemRequest) (tx : ℕ)
    → (make_load_response m p req tx).commit_trace ≡ p.commit_trace
unfolding make_load_response
trace-make_load_response m p req tx =
    if_either (λ (q : PipeSignals). q.commit_trace ≡ p.commit_trace) (full p.dmem_resp) refl refl

trace-answer_pending :
    (m : DMemModel) (p : PipeSignals) → (answer_pending m p).1.commit_trace ≡ p.commit_trace
unfolding answer_pending
trace-answer_pending m p = ground (arith, trace-make_load_response m p m.pending_req 0)

trace-take_load :
    (m : DMemModel) (p : PipeSignals) (req : DmemRequest)
    → (take_load m p req).1.commit_trace ≡ p.commit_trace
unfolding take_load
trace-take_load m p req =
    if_either (λ (y : DMemModel × PipeSignals). y.1.commit_trace ≡ p.commit_trace) m.delay_load
      stale_answer (trace-make_load_response _ _ req 0 ∙ stale_answer)
  where
    stale_answer :
        (if m.send_stale_first && not m.stale_sent
          then make_load_response m p req (u32 (req.transaction_id + 999))
          else p).commit_trace
        ≡ p.commit_trace
    stale_answer =
        if_either (λ (q : PipeSignals). q.commit_trace ≡ p.commit_trace)
          (m.send_stale_first && not m.stale_sent)
          (trace-make_load_response m p req (u32 (req.transaction_id + 999))) refl

trace-take_request :
    (m : DMemModel) (p : PipeSignals) (q : List DmemRequest) (seen : Bool)
    → (take_request m p q seen).1.commit_trace ≡ p.commit_trace
unfolding take_request
trace-take_request m p [] seen = refl
trace-take_request m p (req ∷ rest) seen =
    if_either (λ (y : DMemModel × PipeSignals). y.1.commit_trace ≡ p.commit_trace) req.is_store refl
      (trace-take_load m (record p { dmem_req = rest }) req)

trace-step :
    (m : DMemModel) (p : PipeSignals) (seen : Bool)
    → (step m p seen).1.commit_trace ≡ p.commit_trace
unfolding step
trace-step m p seen =
    trace-take_request (answer_pending m p).0 (answer_pending m p).1 (answer_pending m p).1.dmem_req
      seen
    ∙ trace-answer_pending m p

-- No record waits in the stream; each counted instruction was collected; at most one was in a cycle.
pub record IsCollected (limit : ℕ) (b : Bench) : Type 0 where
  pub inside : b.pipe.commit_trace ≡ []
  pub collected : length b.commits ≡ b.state.csr.instret
  pub at_most_one : b.state.csr.instret ≤ b.state.csr.cycle
  pub cycles : b.state.csr.cycle ≤ limit

module _ (m : IMem) (limit : ℕ) (b : Bench) (h : IsCollected limit b)
    (fits : suc limit < 2 ^ 64) where
  next_cycle : (stepped m b).0.csr.cycle ≡ u64 (b.state.csr.cycle + 1)
  unfolding stepped
  next_cycle = cycle-boom_core_step b.state _

  after_round :
      Recorded b.state.csr.instret [] (stepped m b) → IsCollected (suc limit) (bench_cycle m b)
  unfolding bench_cycle
  after_round r = record {
    inside = trace-step b.dmem (record (stepped m b).1 { commit_trace = [] }) _;
    collected = length-append b.commits (stepped m b).1.commit_trace ∙ grown r;
    at_most_one = omega (arith, counts r, next_cycle, h.at_most_one, h.cycles);
    cycles = omega (arith, next_cycle, h.cycles);
  }
    where
      counts :
          Recorded b.state.csr.instret [] (stepped m b)
          → (stepped m b).0.csr.instret ≤ b.state.csr.instret + 1
      counts (counted n v t) = omega (arith, n)
      counts (uncounted n v t) = omega (arith, n)

      grown :
          Recorded b.state.csr.instret [] (stepped m b)
          → length b.commits + length (stepped m b).1.commit_trace ≡ (stepped m b).0.csr.instret
      grown (counted n v t) =
          let one : length (stepped m b).1.commit_trace ≡ 1 = ap length t in
          omega (arith, one, n, h.collected, h.at_most_one, h.cycles)
      grown (uncounted n v t) =
          let none : length (stepped m b).1.commit_trace ≡ 0 = ap length t in
          omega (arith, none, n, h.collected)

  bench_cycle-IsCollected : IsCollected (suc limit) (bench_cycle m b)
  unfolding stepped
  bench_cycle-IsCollected =
      let t = trace-answer_fetch m b.pipe.imem_req b.pipe ∙ h.inside in
      after_round (
        subst (λ tr. Recorded b.state.csr.instret tr (stepped m b)) t
          (boom_core_step-Recorded b.state _ (ap (λ tr. leb 1024 (length tr)) t)))

weaker : (l k : ℕ) (b : Bench) → l ≤ k → IsCollected l b → IsCollected k b
weaker l k b le h = record {
  inside = h.inside;
  collected = h.collected;
  at_most_one = h.at_most_one;
  cycles = omega (arith, h.cycles);
}

run_from-IsCollected :
    (n limit : ℕ) (m : IMem) (stop : Bool) (b : Bench)
    → limit + n < 2 ^ 64
    → IsCollected limit b
    → IsCollected (limit + n) (run_from n m stop b)
unfolding run_from
run_from-IsCollected zero limit m stop b fits h = weaker _ _ b (omega arith) h
run_from-IsCollected (suc n) limit m stop b fits h =
    let one = bench_cycle-IsCollected m limit b h (omega arith) in
    let same : suc limit + n ≡ limit + suc n = omega arith in
    if_either (IsCollected (limit + suc n)) (stops stop (bench_cycle m b))
      (weaker _ _ _ (omega arith) one)
      (subst (λ k. IsCollected k (run_from n m stop (bench_cycle m b))) same
        (run_from-IsCollected n (suc limit) m stop (bench_cycle m b) (omega arith) one))

-- Whatever program and memory a run starts with, and wherever it stops: it ends within its limit of
-- cycles, it has collected exactly as many commit records as the core has counted instructions, at most
-- one in a cycle, and none waits in the stream.
pub run-IsCollected :
    (m : IMem) (dmem : DMemModel) (max_cycles : ℕ) (stop_on_tohost : Bool)
    → max_cycles < 2 ^ 64
    → IsCollected max_cycles (run m dmem max_cycles stop_on_tohost)
unfolding run
run-IsCollected m dmem max_cycles stop fits =
    let from_zero : 0 + max_cycles ≡ max_cycles = omega arith in
    subst (λ k. IsCollected k (run_from max_cycles m stop (power_up dmem))) from_zero
      (run_from-IsCollected max_cycles 0 m stop (power_up dmem) (omega arith) (record {
        inside = refl;
        collected = refl;
        at_most_one = omega arith;
        cycles = omega arith;
      }))
