-- ===== src/Sim/Trace/Numbering.antt =====
-- What holds of the globals and of the file of reference/verilator_trace/standalone_boom_trace.cpp after
-- every cycle.
use boom.Base.{
  ℕ, u64, Bool, true, not, ◌&&◌, ◌||◌, ◌==◌, ◌!=◌, ltb, if◌then◌else◌, if_either, List, [], ◌∷◌,
  length, get_or, set, ◌≡◌, refl, ◌∙◌, arith,
}
use boom.Base.Rows.{Row, row, AreNumbered, row-AreNumbered, row-next, count_rows, count_rows-append}
use boom.Sim.Trace.{
  Signals, retired_store, Event, rob_allocate_event, writeback_event, branch_resolve_event,
  flush_event, commit_event, tohost_event, metadata_event, Globals, emit, detect_tohost_store,
}
use boom.Sim.Trace.Cycle.{
  log_allocate, log_writeback, log_branch, log_flush, rd_value_valid, rd_value, commit_pc, fetched,
  commit_row, write_rd, log_tohost, counted, commit_with, log_commit, trace_cycle,
}

abbrev pub is_commit : Event → ℕ
is_commit (rob_allocate_event c r p s) = 0
is_commit (writeback_event c r p v) = 0
is_commit (branch_resolve_event c pc s) = 0
is_commit (flush_event c t) = 0
is_commit (commit_event c r) = 1
is_commit (tohost_event c pc a v) = 0
is_commit (metadata_event c d) = 0

-- The commit records of a file.
abbrev pub commit_rows : List (Row Event) → ℕ
commit_rows = count_rows is_commit

-- The rows are numbered in order, `g_commit_records` counts the commit records, the
-- cycle is `c`, and register 0 is 0.
pub record IsTraced (c : ℕ) (g : Globals) : Type 0 where
  pub numbered : AreNumbered 0 g.trace
  pub next : g.trace_sequence_id ≡ u64 (length g.trace)
  pub counted_rows : g.commit_records ≡ u64 (commit_rows g.trace)
  pub now : g.cycle ≡ c
  pub zero_register : get_or g.arch_regs 0 0 ≡ 0

-- A row that is no commit record.
pub emit-IsTraced :
    (c : ℕ) (g : Globals) (e : Event) → is_commit e ≡ 0 → IsTraced c g → IsTraced c (emit g e)
unfolding emit
emit-IsTraced c g e k h = record {
  numbered = row-AreNumbered g.trace g.trace_sequence_id e h.numbered h.next;
  next = row-next g.trace g.trace_sequence_id e h.next;
  counted_rows =
      h.counted_rows
      ∙ omega (arith, k, count_rows-append is_commit g.trace (row g.trace_sequence_id e));
  now = h.now;
  zero_register = h.zero_register;
}

log_allocate-IsTraced :
    (c : ℕ) (s : Signals) (g : Globals) → IsTraced c g → IsTraced c (log_allocate s g)
unfolding log_allocate
log_allocate-IsTraced c s g h =
    if_either (IsTraced c) s.rob_io_enq_valids_0
      (emit-IsTraced c g (rob_allocate_event _ _ _ _) refl h) h

log_writeback-IsTraced :
    (c : ℕ) (s : Signals) (g : Globals) → IsTraced c g → IsTraced c (log_writeback s g)
unfolding log_writeback
log_writeback-IsTraced c s g h =
    if_either (IsTraced c) s.ll_wbarb_io_out_valid
      (emit-IsTraced c g (writeback_event _ _ _ _) refl h) h

log_branch-IsTraced :
    (c : ℕ) (s : Signals) (g : Globals) → IsTraced c g → IsTraced c (log_branch s g)
unfolding log_branch
log_branch-IsTraced c s g h =
    if_either (IsTraced c) s.brinfos_0_valid (emit-IsTraced c g (branch_resolve_event _ _ _) refl h)
      h

log_flush-IsTraced : (c : ℕ) (s : Signals) (g : Globals) → IsTraced c g → IsTraced c (log_flush s g)
unfolding log_flush
log_flush-IsTraced c s g h =
    if_either (IsTraced c) s.rob_io_flush_valid (emit-IsTraced c g (flush_event _ _) refl h) h

commit-IsTraced :
    (c : ℕ) (s : Signals) (inst : Bool × ℕ) (g : Globals)
    → IsTraced c g
    → IsTraced c (emit (counted s g) (commit_event g.cycle (commit_row s inst)))
unfolding emit
commit-IsTraced c s inst g h = record {
  numbered = row-AreNumbered g.trace g.trace_sequence_id _ h.numbered h.next;
  next = row-next g.trace g.trace_sequence_id _ h.next;
  counted_rows = omega (
    arith,
    h.counted_rows,
    count_rows-append is_commit g.trace
        (row g.trace_sequence_id (commit_event g.cycle (commit_row s inst))),
  );
  now = h.now;
  zero_register = h.zero_register;
}

seen-IsTraced :
    (c : ℕ) (g : Globals) (v : ℕ)
    → IsTraced c g
    → IsTraced c (record g { tohost_seen = true; tohost_value = v; tohost_source = retired_store })
seen-IsTraced c g v h = record {
  numbered = h.numbered;
  next = h.next;
  counted_rows = h.counted_rows;
  now = h.now;
  zero_register = h.zero_register;
}

log_tohost-IsTraced :
    (c : ℕ) (s : Signals) (inst : ℕ) (g : Globals) → IsTraced c g → IsTraced c (log_tohost s inst g)
unfolding log_tohost
log_tohost-IsTraced c s inst g h =
    emit-IsTraced c _ (tohost_event _ _ _ _) refl (seen-IsTraced c g _ h)

zero-set : (xs : List ℕ) → get_or (set xs 0 0) 0 0 ≡ 0
zero-set [] = refl
zero-set (x ∷ xs) = refl

zero-write_rd :
    (s : Signals) (regs : List ℕ) → get_or regs 0 0 ≡ 0 → get_or (write_rd s regs) 0 0 ≡ 0
unfolding write_rd
zero-write_rd s regs h =
    if_either (λ (xs : List ℕ). get_or xs 0 0 ≡ 0)
      (s.rob_io_commit_uops_0_ldst_val && rd_value_valid s)
      (zero-set (
        if s.rob_io_commit_uops_0_ldst != 0 && ltb s.rob_io_commit_uops_0_ldst 32
        then set regs s.rob_io_commit_uops_0_ldst (rd_value s)
        else regs))
      h

write_rd-IsTraced :
    (c : ℕ) (s : Signals) (g : Globals)
    → IsTraced c g
    → IsTraced c (record g { arch_regs = write_rd s g.arch_regs })
write_rd-IsTraced c s g h = record {
  numbered = h.numbered;
  next = h.next;
  counted_rows = h.counted_rows;
  now = h.now;
  zero_register = zero-write_rd s g.arch_regs h.zero_register;
}

commit_with-IsTraced :
    (c : ℕ) (tohost_addr : ℕ) (s : Signals) (inst : Bool × ℕ) (g : Globals)
    → IsTraced c g
    → IsTraced c (commit_with tohost_addr s inst g)
unfolding commit_with
commit_with-IsTraced c tohost_addr s inst g h = write_rd-IsTraced c s _ (
    if_either (IsTraced c) (inst.0 && detect_tohost_store tohost_addr g.arch_regs inst.1)
      (log_tohost-IsTraced c s inst.1 _ (commit-IsTraced c s inst g h))
      (commit-IsTraced c s inst g h))

log_commit-IsTraced :
    (c : ℕ) (tohost_addr : ℕ) (s : Signals) (g : Globals)
    → IsTraced c g
    → IsTraced c (log_commit tohost_addr s g)
unfolding log_commit
log_commit-IsTraced c tohost_addr s g h =
    if_either (IsTraced c) s.rob_io_commit_valids_0
      (commit_with-IsTraced c tohost_addr s (fetched g.memory (commit_pc s)) g h) h

recorded-IsTraced :
    (c : ℕ) (g : Globals) (k : ℕ) → IsTraced c g → IsTraced c (record g { last_recorded_cycle = k })
recorded-IsTraced c g k h = record {
  numbered = h.numbered;
  next = h.next;
  counted_rows = h.counted_rows;
  now = h.now;
  zero_register = h.zero_register;
}

pub trace_cycle-IsTraced :
    (c : ℕ) (tohost_addr : ℕ) (s : Signals) (g : Globals)
    → IsTraced c g
    → IsTraced c (trace_cycle tohost_addr s g)
unfolding trace_cycle
trace_cycle-IsTraced c tohost_addr s g h =
    if_either (IsTraced c) (not g.after_reset || g.last_recorded_cycle == g.cycle) h (
      log_commit-IsTraced c tohost_addr s _ (
        log_flush-IsTraced c s _ (
          log_branch-IsTraced c s _ (
            log_writeback-IsTraced c s _
              (log_allocate-IsTraced c s _ (recorded-IsTraced c g g.cycle h))))))
