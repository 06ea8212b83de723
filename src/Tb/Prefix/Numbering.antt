-- ===== src/Tb/Prefix/Numbering.antt =====
-- The file that `run_program` of tb/differential/hls_prefix_trace_tb.cpp writes.
use Prim.{tt}
use boom.Base.{
  ℕ, zero, suc, ◌+◌, ◌≤◌, ◌<◌, u64, Bool, true, false, not, ◌&&◌, ◌||◌, ◌==◌, ltb, if_either, List,
  [], ◌∷◌, length, ◌≡◌, refl, ap, ap₂, ◌∙◌, sym, arith, Bool-cases, inl, inr,
}
use boom.Base.Rows.{Row, row, AreNumbered, row-AreNumbered, row-next, count_rows, count_rows-append}
use boom.Types.Messages.{DmemRequest}
use boom.Types.Entries.{CommitEntry}
use boom.Pipe.{PipeSignals}
use boom.State.{AluResult, BoomCoreState}
use boom.Tb.Prefix.{
  ProgramSpec, IdealMem, Event, running, max_cycles, metadata, branch_event, commit_event, tohost,
  unsupported_boundary, Log, emit,
}
use boom.Tb.Prefix.Program.{
  log_branch, log_commit, log_commits, log_store, Served, serve, Run, stepped, round, run_from,
  first_run, loop, target_commits, verdict, finish, run_program,
}

abbrev pub is_commit : Event → ℕ
is_commit (metadata c n s) = 0
is_commit (branch_event c r) = 0
is_commit (commit_event c ce) = 1
is_commit (tohost c req d m) = 0
is_commit (unsupported_boundary c pc inst) = 0

-- The commit records of a file.
abbrev pub commit_rows : List (Row Event) → ℕ
commit_rows = count_rows is_commit

-- The rows are numbered in order, and `prefix_commits` counts the commit records among them, which
-- are at most `target`.
pub record IsLog (target : ℕ) (l : Log) : Type 0 where
  pub numbered : AreNumbered 0 l.rows
  pub next : l.seq ≡ u64 (length l.rows)
  pub counted : commit_rows l.rows ≡ l.prefix_commits
  pub bounded : l.prefix_commits ≤ target

prefix_commits-emit : (l : Log) (e : Event) → (emit l e).prefix_commits ≡ l.prefix_commits
unfolding emit
prefix_commits-emit l e = refl

emit-numbered : (target : ℕ) (l : Log) (e : Event) → IsLog target l → AreNumbered 0 (emit l e).rows
unfolding emit
emit-numbered target l e h = row-AreNumbered l.rows l.seq e h.numbered h.next

emit-next :
    (target : ℕ) (l : Log) (e : Event)
    → IsLog target l
    → (emit l e).seq ≡ u64 (length (emit l e).rows)
unfolding emit
emit-next target l e h = row-next l.rows l.seq e h.next

emit-counted :
    (target : ℕ) (l : Log) (e : Event)
    → IsLog target l
    → commit_rows (emit l e).rows ≡ l.prefix_commits + is_commit e
unfolding emit
emit-counted target l e h =
    omega (arith, count_rows-append is_commit l.rows (row l.seq e), h.counted)

-- A row that is no commit record leaves the count.
emit-IsLog :
    (target : ℕ) (l : Log) (e : Event) → is_commit e ≡ 0 → IsLog target l → IsLog target (emit l e)
emit-IsLog target l e k h = record {
  numbered = emit-numbered target l e h;
  next = emit-next target l e h;
  counted = emit-counted target l e h ∙ omega (arith, k, prefix_commits-emit l e);
  bounded = omega (arith, prefix_commits-emit l e, h.bounded);
}

log_branch-IsLog :
    (target : ℕ) (cycle : ℕ) (r : AluResult) (l : Log)
    → IsLog target l
    → IsLog target (log_branch cycle r l)
unfolding log_branch
log_branch-IsLog target cycle r l h =
    if_either (IsLog target) _ h (emit-IsLog target l (branch_event cycle r) refl h)

log_commit-IsLog :
    (target : ℕ) (cycle : ℕ) (ce : CommitEntry) (l : Log)
    → l.prefix_commits < target
    → IsLog target l
    → IsLog target (log_commit cycle ce l)
unfolding log_commit
log_commit-IsLog target cycle ce l b h = if_either (IsLog target) _ h (record {
  numbered = emit-numbered target l (commit_event cycle ce) h;
  next = emit-next target l (commit_event cycle ce) h;
  counted =
      emit-counted target l (commit_event cycle ce) h
      ∙ ap (λ (n : ℕ). n + 1) (sym (prefix_commits-emit l (commit_event cycle ce)));
  bounded = omega (arith, prefix_commits-emit l (commit_event cycle ce), b);
})

log_commits-IsLog :
    (target cycle : ℕ) (ces : List CommitEntry) (l : Log)
    → IsLog target l
    → IsLog target (log_commits target cycle ces l).0
unfolding log_commits
log_commits-IsLog target cycle [] l h = h
log_commits-IsLog target cycle (ce ∷ ces) l h = elim (Bool-cases (ltb l.prefix_commits target)) [
  | inl e ↦ rw e (
      log_commits-IsLog target cycle ces (log_commit cycle ce l)
        (log_commit-IsLog target cycle ce l (ground arith) h))
  | inr e ↦ rw e h
]

seen-IsLog :
    (target : ℕ) (l : Log) (b : Bool) → IsLog target l → IsLog target (record l { saw_tohost = b })
seen-IsLog target l b h = record {
  numbered = h.numbered;
  next = h.next;
  counted = h.counted;
  bounded = h.bounded;
}

log_store-IsLog :
    (target : ℕ) (cycle : ℕ) (req : DmemRequest) (l : Log)
    → IsLog target l
    → IsLog target (log_store cycle req l)
unfolding log_store
log_store-IsLog target cycle req l h =
    if_either (IsLog target) _
      (seen-IsLog target _ _ (emit-IsLog target l (tohost cycle req _ _) refl h)) h

serve-IsLog :
    (target : ℕ) (cycle : ℕ) (q : List DmemRequest) (s : Served)
    → IsLog target s.log
    → IsLog target (serve cycle q s).log
unfolding serve
serve-IsLog target cycle [] s h = h
serve-IsLog target cycle (req ∷ rest) s h =
    serve-IsLog target cycle rest _ (
      if_either (λ (t : Served). IsLog target t.log) _ (log_store-IsLog target cycle req s.log h) h)

round-IsLog : (target : ℕ) (r : Run) → IsLog target r.log → IsLog target (round target r).log
unfolding round
round-IsLog target r h =
    serve-IsLog target s.csr.cycle p.dmem_req
      (record { mem = r.mem; dmem_resp = p.dmem_resp; log = logged.0 })
      (log_commits-IsLog target s.csr.cycle p.commit_trace
        (log_branch s.csr.cycle s.execute.alu_result r.log)
        (log_branch-IsLog target s.csr.cycle s.execute.alu_result r.log h))
  where
    s : BoomCoreState
    s = (stepped r).0

    p : PipeSignals
    p = (stepped r).1

    logged : Log × List CommitEntry
    logged =
        log_commits target s.csr.cycle p.commit_trace
          (log_branch s.csr.cycle s.execute.alu_result r.log)

run_from-IsLog :
    (n target : ℕ) (r : Run) → IsLog target r.log → IsLog target (run_from n target r).log
unfolding run_from
run_from-IsLog zero target r h = h
run_from-IsLog (suc n) target r h =
    if_either (λ (x : Run). IsLog target x.log) _
      (run_from-IsLog n target (round target r) (round-IsLog target r h)) h

start-IsLog :
    (target : ℕ)
    → IsLog target (record { rows = []; seq = 0; prefix_commits = 0; saw_tohost = false })
unfolding AreNumbered count_rows
start-IsLog target = record { numbered = tt; next = refl; counted = refl; bounded = omega arith }

loop-IsLog :
    (complete : Bool) (program : ProgramSpec) (mem : IdealMem)
    → IsLog (target_commits complete program) (loop complete program mem).log
unfolding loop
loop-IsLog complete program mem =
    run_from-IsLog max_cycles (target_commits complete program) (first_run mem) (
      emit-IsLog (target_commits complete program) _ (metadata 0 0 running) refl
        (start-IsLog (target_commits complete program)))

finish-IsLog :
    (target : ℕ) (complete : Bool) (program : ProgramSpec) (cycle : ℕ) (l : Log)
    → IsLog target l
    → IsLog target (finish complete program cycle l)
unfolding finish
finish-IsLog target complete program cycle l h =
    emit-IsLog target _ (metadata _ _ _) refl
      (if_either (IsLog target) _ (emit-IsLog target l (unsupported_boundary _ _ _) refl h) h)

finish-keeps :
    (complete : Bool) (program : ProgramSpec) (cycle : ℕ) (l : Log)
    → ((finish complete program cycle l).prefix_commits ≡ l.prefix_commits)
      × ((finish complete program cycle l).saw_tohost ≡ l.saw_tohost)
unfolding finish emit
finish-keeps complete program cycle l = (ground arith, ground arith)

verdict-counts :
    (complete : Bool) (program : ProgramSpec) (l : Log)
    → verdict complete program l
      ≡ (l.prefix_commits == target_commits complete program && (not complete || l.saw_tohost))
unfolding verdict
verdict-counts true program l = ground arith
verdict-counts false program l = ground arith

-- Whatever memory a program starts with: the rows of the file are numbered in the order in which they
-- stand, at most the target of commit records is written, and the program passes exactly if the file has
-- that many and, in complete mode, `saw_tohost` is set at the end.
pub run_program-IsLog :
    (complete : Bool) (program : ProgramSpec) (mem : IdealMem)
    → IsLog (target_commits complete program) (run_program complete program mem).1
      × ((run_program complete program mem).0 ≡ (
          commit_rows (run_program complete program mem).1.rows == target_commits complete program
          && (not complete || (run_program complete program mem).1.saw_tohost)))
unfolding run_program
run_program-IsLog complete program mem = (
  written,
  verdict-counts complete program l
      ∙ ap₂ (λ (n : ℕ) (b : Bool). n == target_commits complete program && (not complete || b))
          (sym (written.counted ∙ kept.0)) (sym kept.1),
)
  where
    l : Log
    l = (loop complete program mem).log

    cycle : ℕ
    cycle = (loop complete program mem).state.csr.cycle

    written : IsLog (target_commits complete program) (finish complete program cycle l)
    written =
        finish-IsLog (target_commits complete program) complete program cycle l
          (loop-IsLog complete program mem)

    kept :
        ((finish complete program cycle l).prefix_commits ≡ l.prefix_commits)
        × ((finish complete program cycle l).saw_tohost ≡ l.saw_tohost)
    kept = finish-keeps complete program cycle l
