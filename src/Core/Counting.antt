-- ===== src/Core/Counting.antt =====
-- The counters and the trace over one cycle of src/boom_core_step.cpp.
use boom.Base.{
  ℕ, zero, suc, ◌+◌, ◌%◌, u8, u64, ◌≡◌, refl, sym, ap, ◌∙◌, inl, inr, arith, Bool-cases, if_false,
  if_either, subst, leb, length, true, false, ◌&&◌, List, [], ◌∷◌,
}
use boom.Pipe.{PipeSignals, write, full}
use boom.Types.Uop.{MicroOp}
use boom.Types.Entries.{CommitEntry}
use boom.State.{BoomCoreState, CsrState, AluResult, RobInternalState}
use boom.Csr.{csr_module}
use boom.Branch.{branch_module}
use boom.Frontend.{frontend_module, fetch, prepare, redirect, leave_reset, note_flush, finish_flush}
use boom.Decode.{decode_module}
use boom.Rename.{rename_module}
use boom.Issue.{issue_module}
use boom.Execute.{execute_module, execute_issued}
use boom.Lsu.{lsu_module}
use boom.Lsu.Issue.{issue_loads, try_issue_load}
use boom.Lsu.Validity.{lsu_module_keeps}
use boom.Rob.{rob_allocate, rob_commit_module, complete, squash}
use boom.Rob.Retire.{
  retire, retire_normal, retire_exception, commit, note_store, pop, store_request,
}
use boom.Core.{boom_core_step, begin_cycle, middle}

csr-branch_module : (s : BoomCoreState) → (branch_module s).csr ≡ s.csr
unfolding branch_module
csr-branch_module s = ground arith

csr-lsu_module : (s : BoomCoreState) (p : PipeSignals) → (lsu_module s p).0.csr ≡ s.csr
csr-lsu_module s p =
    lsu_module_keeps (λ t. t.csr ≡ s.csr) (λ t i e rf l same v. v) (λ t l v. v) s p refl

csr-prepare : (s : BoomCoreState) → (prepare s).csr ≡ s.csr
unfolding prepare redirect leave_reset note_flush
csr-prepare s = ground arith

csr-finish_flush : (s : BoomCoreState) → (finish_flush s).csr ≡ s.csr
unfolding finish_flush
csr-finish_flush s = ground arith

csr-frontend_module : (s : BoomCoreState) (p : PipeSignals) → (frontend_module s p).0.csr ≡ s.csr
unfolding frontend_module
csr-frontend_module s p = ground (arith, csr-prepare s, csr-finish_flush (prepare s))

csr-decode_module : (s : BoomCoreState) → (decode_module s).csr ≡ s.csr
unfolding decode_module
csr-decode_module s = ground arith

csr-rename_module : (s : BoomCoreState) → (rename_module s).csr ≡ s.csr
unfolding rename_module
csr-rename_module s = ground arith

csr-rob_allocate : (s : BoomCoreState) → (rob_allocate s).csr ≡ s.csr
unfolding rob_allocate
csr-rob_allocate s = ground arith

csr-issue_module : (s : BoomCoreState) → (issue_module s).csr ≡ s.csr
unfolding issue_module
csr-issue_module s = ground arith

csr-execute_issued : (us : List MicroOp) (s : BoomCoreState) → (execute_issued us s).csr ≡ s.csr
unfolding execute_issued
csr-execute_issued [] s = refl
csr-execute_issued (u ∷ us) s = refl

csr-execute_module : (s : BoomCoreState) → (execute_module s).csr ≡ s.csr
unfolding execute_module
csr-execute_module s = csr-execute_issued _ s

csr-middle : (s : BoomCoreState) → (middle s).csr ≡ s.csr
unfolding middle
csr-middle s =
    csr-execute_module _
    ∙ csr-issue_module _
    ∙ csr-rob_allocate _
    ∙ csr-rename_module _
    ∙ csr-decode_module s

-- The streams that the stages write are not the trace.
trace-try_issue_load :
    (s : BoomCoreState) (p : PipeSignals) (i : ℕ)
    → (try_issue_load s p i).1.commit_trace ≡ p.commit_trace
unfolding try_issue_load
trace-try_issue_load s p i = ground arith

trace-issue_loads :
    (n i : ℕ) (s : BoomCoreState) (p : PipeSignals)
    → (issue_loads n i s p).1.commit_trace ≡ p.commit_trace
unfolding issue_loads
trace-issue_loads zero i s p = refl
trace-issue_loads (suc n) i s p =
    let idx = u8 ((s.rob.head + i) % 32) in
    let one = trace-try_issue_load s p idx in
    let rest = trace-issue_loads n (i + 1) (try_issue_load s p idx).0 (try_issue_load s p idx).1 in
    elim (Bool-cases (try_issue_load s p idx).0.lsu.load_response_pending) [
      | inl e ↦ rw e one
      | inr e ↦ rw e (rest ∙ one)
    ]

trace-lsu_module :
    (s : BoomCoreState) (p : PipeSignals) → (lsu_module s p).1.commit_trace ≡ p.commit_trace
unfolding lsu_module
trace-lsu_module s p = elim (Bool-cases s.global_flush) [
  | inl e ↦ rw e refl
  | inr e ↦ rw e (trace-issue_loads 32 0 _ _)
]

trace-fetch :
    (s : BoomCoreState) (p : PipeSignals) → (fetch s.frontend p).1.commit_trace ≡ p.commit_trace
unfolding fetch
trace-fetch s p = refl

trace-frontend_module :
    (s : BoomCoreState) (p : PipeSignals) → (frontend_module s p).1.commit_trace ≡ p.commit_trace
unfolding frontend_module
trace-frontend_module s p = ground (arith, trace-fetch (finish_flush (prepare s)) p)

-- What a stage or a cycle does to the count of instructions and to the trace, from a core and its streams
-- to a core and its streams.
pub data Recorded (n : ℕ) (trace : List CommitEntry) (y : BoomCoreState × PipeSignals)
    : Type 0 where
  -- One instruction is counted, and its record is behind the trace.
  counted :
      y.0.csr.instret ≡ u64 (n + 1)
      → y.0.rob.commit_valid ≡ true
      → y.1.commit_trace ≡ write trace y.0.rob.last_commit
      → Recorded n trace y
  -- No instruction is counted and nothing is recorded.
  uncounted :
      y.0.csr.instret ≡ n
      → y.0.rob.commit_valid ≡ false
      → y.1.commit_trace ≡ trace
      → Recorded n trace y

commit-Recorded :
    (s : BoomCoreState) (p : PipeSignals)
    → full p.commit_trace ≡ false
    → Recorded s.csr.instret p.commit_trace (commit s p)
unfolding commit
commit-Recorded s p room =
    counted refl refl (ap (λ (q : PipeSignals). q.commit_trace) (if_false _ _ room))

retire_cases {ℓ} :
    (P : BoomCoreState × PipeSignals → Type ℓ) (s : BoomCoreState) (p : PipeSignals)
    → P (s, p)
    → P (retire_exception s, p)
    → P (commit s p)
    → P (commit (note_store s) (record p { dmem_req = write p.dmem_req (store_request s) }))
    → P (retire s p)
unfolding retire retire_normal
retire_cases P s p stays traps commits stores = ground arith

exception-Recorded :
    (s : BoomCoreState) (p : PipeSignals)
    → s.rob.commit_valid ≡ false
    → Recorded s.csr.instret p.commit_trace (retire_exception s, p)
unfolding retire_exception pop
exception-Recorded s p h = uncounted (ground arith) (ground arith) refl

retire-Recorded :
    (s : BoomCoreState) (p : PipeSignals)
    → s.rob.commit_valid ≡ false
    → full p.commit_trace ≡ false
    → Recorded s.csr.instret p.commit_trace (retire s p)
unfolding note_store
retire-Recorded s p h room =
    retire_cases (Recorded s.csr.instret p.commit_trace) s p (uncounted refl h refl)
      (exception-Recorded s p h) (commit-Recorded s p room)
      (commit-Recorded (note_store s) (record p { dmem_req = write p.dmem_req (store_request s) })
        room)

complete_commit_valid :
    (r : AluResult) (rob : RobInternalState) → (complete r rob).commit_valid ≡ rob.commit_valid
unfolding complete
complete_commit_valid r rob = ground arith

rob_commit_module-Recorded :
    (s : BoomCoreState) (p : PipeSignals)
    → full p.commit_trace ≡ false
    → Recorded s.csr.instret p.commit_trace (rob_commit_module s p)
unfolding rob_commit_module squash
rob_commit_module-Recorded s p room =
    if_either (Recorded s.csr.instret p.commit_trace) (s.brupdate.valid && s.brupdate.mispredict)
      (uncounted refl refl refl)
      (retire-Recorded _ p (complete_commit_valid s.execute.alu_result _) room)

cycle-rob_commit_module :
    (s : BoomCoreState) (p : PipeSignals) → (rob_commit_module s p).0.csr.cycle ≡ s.csr.cycle
unfolding rob_commit_module commit note_store retire_exception
cycle-rob_commit_module s p =
    if_either (λ (y : BoomCoreState × PipeSignals). y.0.csr.cycle ≡ s.csr.cycle)
      (s.brupdate.valid && s.brupdate.mispredict) refl
      (retire_cases (λ y. y.0.csr.cycle ≡ s.csr.cycle) _ p refl (ground arith) refl refl)

module _ (s : BoomCoreState) (p : PipeSignals) where
  -- The core and the streams as commit finds them.
  before_front : BoomCoreState × PipeSignals
  before_front = lsu_module (branch_module (csr_module (begin_cycle s))) p

  before_commit : BoomCoreState × PipeSignals
  unfolding before_front
  before_commit = let (t, q) = frontend_module before_front.0 before_front.1 in (middle t, q)

  csr-before_commit : before_commit.0.csr ≡ (csr_module (begin_cycle s)).csr
  unfolding before_commit before_front
  csr-before_commit =
      csr-middle _ ∙ csr-frontend_module _ _ ∙ csr-lsu_module _ _ ∙ csr-branch_module _

  trace-before_commit : before_commit.1.commit_trace ≡ p.commit_trace
  unfolding before_commit before_front
  trace-before_commit = trace-frontend_module _ _ ∙ trace-lsu_module _ _

  step-commit : boom_core_step s p ≡ rob_commit_module before_commit.0 before_commit.1
  unfolding boom_core_step before_commit before_front
  step-commit = refl

  pub cycle-boom_core_step : (boom_core_step s p).0.csr.cycle ≡ u64 (s.csr.cycle + 1)
  unfolding csr_module begin_cycle
  cycle-boom_core_step =
      ap (λ (y : BoomCoreState × PipeSignals). y.0.csr.cycle) step-commit
      ∙ cycle-rob_commit_module before_commit.0 before_commit.1
      ∙ ap (λ (c : CsrState). c.cycle) csr-before_commit

  -- A cycle of the core, with room in the trace, counts one instruction and appends its record to the
  -- trace, or counts none and leaves the trace as it is.
  pub boom_core_step-Recorded :
      full p.commit_trace ≡ false → Recorded s.csr.instret p.commit_trace (boom_core_step s p)
  unfolding csr_module begin_cycle
  boom_core_step-Recorded room =
      let t = trace-before_commit in
      let n = ap (λ (c : CsrState). c.instret) csr-before_commit in
      subst (Recorded s.csr.instret p.commit_trace) (sym step-commit) (
        subst (λ n. Recorded n p.commit_trace (rob_commit_module before_commit.0 before_commit.1)) n
          (subst
            (λ tr.
              Recorded before_commit.0.csr.instret tr
                (rob_commit_module before_commit.0 before_commit.1))
            t
            (rob_commit_module-Recorded before_commit.0 before_commit.1
              (ap (λ (tr : List CommitEntry). leb 1024 (length tr)) t ∙ room))))
