-- ===== src/Tb/Entries.antt =====
-- tb/trace_reader.cpp and tb/trace_compare.cpp: the entries of a commit trace and their comparison. The
-- file that `read_entry` scans is left out, and so is what `compare_entries` and `report` print.
use boom.Base.{ℕ, ◌+◌, u8, Bool, true, false, ◌&&◌, ◌==◌, if◌then◌else◌}
use boom.Types.Entries.{CommitEntry}

pub record TraceEntry : Type 0 where
  pub cycle : ℕ
  pub commit_slot : ℕ
  pub pc : ℕ
  pub instruction : ℕ
  pub privilege : ℕ
  pub rd_valid : Bool
  pub rd : ℕ
  pub rd_value : ℕ
  pub exception : Bool
  pub exception_cause : ℕ
  pub memory_valid : Bool
  pub memory_address : ℕ
  pub memory_data : ℕ
  pub memory_mask : ℕ
  pub branch_mispredict : Bool

abbrev pub trace_entry_init : TraceEntry
trace_entry_init = record {
  cycle = 0;
  commit_slot = 0;
  pc = 0;
  instruction = 0;
  privilege = 0;
  rd_valid = false;
  rd = 0;
  rd_value = 0;
  exception = false;
  exception_cause = 0;
  memory_valid = false;
  memory_address = 0;
  memory_data = 0;
  memory_mask = 0;
  branch_mispredict = false;
}

unfoldable pub from_commit_entry : CommitEntry → ℕ → ℕ → TraceEntry
from_commit_entry ce cycle slot = record {
  cycle = cycle;
  commit_slot = u8 slot;
  pc = ce.pc;
  instruction = ce.inst;
  privilege = ce.priv;
  rd_valid = ce.rd_valid;
  rd = ce.rd;
  rd_value = ce.rd_value;
  exception = ce.exception;
  exception_cause = ce.exc_cause;
  memory_valid = ce.is_store;
  memory_address = ce.store_addr;
  memory_data = ce.store_data;
  memory_mask = ce.store_mask;
  branch_mispredict = ce.branch_mispredict;
}

pub record TraceCompare : Type 0 where
  pub mismatches : ℕ
  pub total : ℕ

abbrev pub trace_compare_init : TraceCompare
trace_compare_init = record { mismatches = 0; total = 0 }

abbrev same_flag : Bool → Bool → Bool
same_flag true b = b
same_flag false true = false
same_flag false false = true

-- The six fields that are compared.
unfoldable pub entries_match : TraceEntry → TraceEntry → Bool
entries_match ref dut =
    ref.pc == dut.pc
    && ref.instruction == dut.instruction
    && ref.rd == dut.rd
    && ref.rd_value == dut.rd_value
    && same_flag ref.exception dut.exception
    && same_flag ref.branch_mispredict dut.branch_mispredict

unfoldable pub compare_entries : TraceCompare → TraceEntry → TraceEntry → TraceCompare × Bool
unfolding entries_match
compare_entries t ref dut = (
  record {
    mismatches = if entries_match ref dut then t.mismatches else t.mismatches + 1;
    total = t.total + 1;
  },
  entries_match ref dut,
)
