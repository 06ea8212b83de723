-- ===== src/Sim/Trace.antt =====
-- `trace_cycle` of reference/verilator_trace/standalone_boom_trace.cpp and what it calls: the rows of one
-- cycle, from the signals of the simulated core. The globals of the file are the fields of `Globals`; the
-- file that is written is the list of its rows, each with the values that are printed.
pub mod Cycle
pub mod Numbering
pub mod Address
use boom.Base.{
  ℕ, ◌+◌, ◌-◌, ◌*◌, ◌/◌, ◌%◌, ◌^◌, ◌<<<◌, ◌>>>◌, bit_and, bit_or, bit_xor, u32, u64, Bool, true,
  false, not, ◌&&◌, ◌||◌, ◌==◌, ◌!=◌, ltb, if◌then◌else◌, List, [], ◌∷◌, ◌++◌, get_or, set,
  replicate, Option, none, some,
}
use boom.Base.Rows.{Row, row}
use boom.Sim.Memory.{SimpleMemory, read_u32}

-- What `CORE_SIG` and `FTQ_SIG` read.
pub record Signals : Type 0 where
  pub rob_io_enq_valids_0 : Bool
  pub rob_io_enq_uops_0_rob_idx : ℕ
  pub rob_io_enq_uops_0_pdst : ℕ
  pub rob_io_enq_uops_0_stale_pdst : ℕ
  pub ll_wbarb_io_out_valid : Bool
  pub ll_wbarb_io_out_bits_uop_rob_idx : ℕ
  pub ll_wbarb_io_out_bits_uop_pdst : ℕ
  pub ll_wbarb_io_out_bits_data : ℕ
  pub brinfos_0_valid : Bool
  pub brinfos_0_uop_ftq_idx : ℕ
  pub brinfos_0_uop_pc_lob : ℕ
  pub brinfos_0_uop_rob_idx : ℕ
  pub brinfos_0_taken : Bool
  pub brinfos_0_mispredict : Bool
  pub brinfos_0_uop_br_tag : ℕ
  pub brinfos_0_uop_br_mask : ℕ
  pub brinfos_0_cfi_type : ℕ
  pub rob_io_flush_valid : Bool
  pub io_ifu_redirect_pc_reg : ℕ
  pub rob_io_commit_valids_0 : Bool
  pub rob_io_commit_uops_0_ftq_idx : ℕ
  pub rob_io_commit_uops_0_pc_lob : ℕ
  pub rob_io_commit_uops_0_pdst : ℕ
  pub rob_io_commit_uops_0_stale_pdst : ℕ
  pub rob_io_commit_uops_0_ldst_val : Bool
  pub rob_io_commit_uops_0_ldst : ℕ
  pub rob_io_commit_arch_valids_0 : Bool
  pub rob_io_com_xcpt_valid : Bool
  pub regfile : List ℕ
  pub pcs : List ℕ

pub data TohostSource : Type 0 where
  no_source retired_store memory_write : TohostSource

pub data TerminationReason : Type 0 where
  running by_tohost verilator_finish by_max_cycles : TerminationReason

-- A field that is `none` is printed as null.
pub record CommitRow : Type 0 where
  pub pc : ℕ
  pub instruction : Option ℕ
  pub rd : Option ℕ
  pub physical_rd : ℕ
  pub stale_physical_rd : ℕ
  pub rd_value : Option ℕ
  pub exception : Bool
  pub arch_valid : Bool

pub record Metadata : Type 0 where
  pub commit_records : ℕ
  pub termination_reason : TerminationReason
  pub exit_code : ℕ
  pub tohost_value : Option ℕ
  pub tohost_source : TohostSource
  pub last_pc : Option ℕ
  pub at_max_cycles : Bool

-- The kinds of row, each with its cycle first.
pub data Event : Type 0 where
  rob_allocate_event : (cycle rob_idx physical_rd stale_physical_rd : ℕ) → Event
  writeback_event : (cycle rob_idx physical_rd result : ℕ) → Event
  branch_resolve_event : (cycle pc : ℕ) → Signals → Event
  flush_event : (cycle target : ℕ) → Event
  commit_event : (cycle : ℕ) → CommitRow → Event
  tohost_event : (cycle pc address value : ℕ) → Event
  metadata_event : (cycle : ℕ) → Metadata → Event

pub record Globals : Type 0 where
  pub cycle : ℕ
  pub trace_sequence_id : ℕ
  pub commit_records : ℕ
  pub last_recorded_cycle : ℕ
  pub last_commit_pc : ℕ
  pub last_commit_pc_valid : Bool
  pub arch_regs : List ℕ
  pub tohost_seen : Bool
  pub tohost_value : ℕ
  pub tohost_source : TohostSource
  pub after_reset : Bool
  pub memory : Option SimpleMemory
  pub trace : List (Row Event)

abbrev pub globals_init : Globals
globals_init = record {
  cycle = 0;
  trace_sequence_id = 0;
  commit_records = 0;
  last_recorded_cycle = 2 ^ 64 - 1;
  last_commit_pc = 0;
  last_commit_pc_valid = false;
  arch_regs = replicate 32 0;
  tohost_seen = false;
  tohost_value = 0;
  tohost_source = no_source;
  after_reset = false;
  memory = none;
  trace = [];
}

-- A row with `g_trace_sequence_id++`.
unfoldable pub emit : Globals → Event → Globals
emit g e = record g {
  trace = g.trace ++ row g.trace_sequence_id e ∷ [];
  trace_sequence_id = u64 (g.trace_sequence_id + 1);
}

unfoldable pub ftq_pc : Signals → ℕ → ℕ
ftq_pc s idx = get_or s.pcs (bit_and idx 15) 0

unfoldable pub uop_pc : Signals → ℕ → ℕ → ℕ
unfolding ftq_pc
uop_pc s ftq_idx pc_lob = bit_or (bit_and (ftq_pc s ftq_idx) (2 ^ 64 - 64)) (bit_and pc_lob 0x3F)

-- The subtraction is one of `uint32_t`, and its result is cast to 64 bits afterwards.
unfoldable pub sign_extend : ℕ → ℕ → ℕ
sign_extend value bits =
    let sign_bit = 1 <<< (bits - 1) in u32 (bit_xor value sign_bit + 2 ^ 32 - sign_bit)

unfoldable pub store_offset : ℕ → ℕ
store_offset inst = bit_or (bit_and (inst >>> 7) 0x1F) (bit_and (inst >>> 25) 0x7F <<< 5)

abbrev pub is_sd : ℕ → Bool
is_sd inst = bit_and inst 0x7F == 0x23 && bit_and (inst >>> 12) 0x7 == 0x3

-- The address and the value of an `sd`.
unfoldable pub sd_address : List ℕ → ℕ → ℕ
unfolding sign_extend store_offset
sd_address regs inst =
    u64 (get_or regs (bit_and (inst >>> 15) 0x1F) 0 + sign_extend (store_offset inst) 12)

abbrev pub sd_value : List ℕ → ℕ → ℕ
sd_value regs inst = get_or regs (bit_and (inst >>> 20) 0x1F) 0

unfoldable pub detect_tohost_store : ℕ → List ℕ → ℕ → Bool
unfolding sd_address
detect_tohost_store tohost_addr regs inst =
    is_sd inst && (sd_address regs inst == tohost_addr && sd_value regs inst != 0)
