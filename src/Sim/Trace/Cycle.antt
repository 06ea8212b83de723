-- ===== src/Sim/Trace/Cycle.antt =====
-- `trace_cycle` of reference/verilator_trace/standalone_boom_trace.cpp, one function for each kind of row.
use boom.Base.{
  ℕ, ◌+◌, u64, Bool, true, false, not, ◌&&◌, ◌||◌, ◌==◌, ◌!=◌, ltb, if◌then◌else◌, List, get_or,
  set, Option, none, some,
}
use boom.Sim.Memory.{SimpleMemory, read_u32}
use boom.Sim.Trace.{
  Signals, retired_store, CommitRow, rob_allocate_event, writeback_event, branch_resolve_event,
  flush_event, commit_event, tohost_event, Globals, emit, uop_pc, sd_address, sd_value,
  detect_tohost_store,
}

unfoldable pub log_allocate : Signals → Globals → Globals
log_allocate s g =
    if s.rob_io_enq_valids_0
    then emit g (
        rob_allocate_event g.cycle s.rob_io_enq_uops_0_rob_idx s.rob_io_enq_uops_0_pdst
          s.rob_io_enq_uops_0_stale_pdst)
    else g

unfoldable pub log_writeback : Signals → Globals → Globals
log_writeback s g =
    if s.ll_wbarb_io_out_valid
    then emit g (
        writeback_event g.cycle s.ll_wbarb_io_out_bits_uop_rob_idx s.ll_wbarb_io_out_bits_uop_pdst
          s.ll_wbarb_io_out_bits_data)
    else g

unfoldable pub log_branch : Signals → Globals → Globals
log_branch s g =
    if s.brinfos_0_valid
    then emit g
        (branch_resolve_event g.cycle (uop_pc s s.brinfos_0_uop_ftq_idx s.brinfos_0_uop_pc_lob) s)
    else g

unfoldable pub log_flush : Signals → Globals → Globals
log_flush s g =
    if s.rob_io_flush_valid then emit g (flush_event g.cycle s.io_ifu_redirect_pc_reg) else g

unfoldable pub commit_pc : Signals → ℕ
commit_pc s = uop_pc s s.rob_io_commit_uops_0_ftq_idx s.rob_io_commit_uops_0_pc_lob

-- The word at the pc, if any of its bytes was loaded.
unfoldable pub fetched : Option SimpleMemory → ℕ → Bool × ℕ
fetched none pc = (false, 0)
fetched (some m) pc = read_u32 m pc

abbrev pub rd_value_valid : Signals → Bool
rd_value_valid s = s.rob_io_commit_uops_0_ldst_val && ltb s.rob_io_commit_uops_0_pdst 52

abbrev pub rd_value : Signals → ℕ
rd_value s = if rd_value_valid s then get_or s.regfile s.rob_io_commit_uops_0_pdst 0 else 0

abbrev when : Bool → ℕ → Option ℕ
when b n = if b then some n else none

unfoldable pub commit_row : Signals → Bool × ℕ → CommitRow
commit_row s inst = record {
  pc = commit_pc s;
  instruction = when inst.0 inst.1;
  rd = when s.rob_io_commit_uops_0_ldst_val s.rob_io_commit_uops_0_ldst;
  physical_rd = s.rob_io_commit_uops_0_pdst;
  stale_physical_rd = s.rob_io_commit_uops_0_stale_pdst;
  rd_value = when (rd_value_valid s) (rd_value s);
  exception = s.rob_io_com_xcpt_valid;
  arch_valid = s.rob_io_commit_arch_valids_0;
}

-- The registers after the commit.
unfoldable pub write_rd : Signals → List ℕ → List ℕ
write_rd s regs =
    if s.rob_io_commit_uops_0_ldst_val && rd_value_valid s
    then set
        (if s.rob_io_commit_uops_0_ldst != 0 && ltb s.rob_io_commit_uops_0_ldst 32
          then set regs s.rob_io_commit_uops_0_ldst (rd_value s)
          else regs)
        0 0
    else regs

-- The row of a store to `tohost`, behind the row of its commit, and the flags.
unfoldable pub log_tohost : Signals → ℕ → Globals → Globals
log_tohost s inst g =
    emit
      (record g {
        tohost_seen = true;
        tohost_value = sd_value g.arch_regs inst;
        tohost_source = retired_store;
      })
      (tohost_event g.cycle (commit_pc s) (sd_address g.arch_regs inst) (sd_value g.arch_regs inst))

-- The globals when the row of a commit is written.
abbrev pub counted : Signals → Globals → Globals
counted s g = record g {
  last_commit_pc = commit_pc s;
  last_commit_pc_valid = true;
  commit_records = u64 (g.commit_records + 1);
}

unfoldable pub commit_with : ℕ → Signals → Bool × ℕ → Globals → Globals
unfolding log_tohost write_rd
commit_with tohost_addr s inst g =
    let written = emit (counted s g) (commit_event g.cycle (commit_row s inst)) in
    let n =
      if inst.0 && detect_tohost_store tohost_addr g.arch_regs inst.1
      then log_tohost s inst.1 written
      else written in
    record n { arch_regs = write_rd s n.arch_regs }

unfoldable pub log_commit : ℕ → Signals → Globals → Globals
unfolding commit_with
log_commit tohost_addr s g =
    if s.rob_io_commit_valids_0
    then commit_with tohost_addr s (fetched g.memory (commit_pc s)) g
    else g

unfoldable pub trace_cycle : ℕ → Signals → Globals → Globals
unfolding log_allocate log_writeback log_branch log_flush log_commit
trace_cycle tohost_addr s g =
    if not g.after_reset || g.last_recorded_cycle == g.cycle
    then g
    else log_commit tohost_addr s (
        log_flush s (
          log_branch s
            (log_writeback s (log_allocate s (record g { last_recorded_cycle = g.cycle })))))
