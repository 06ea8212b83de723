-- ===== src/Tb/Prefix.antt =====
-- tb/differential/hls_prefix_trace_tb.cpp: its memory `IdealMem`, and `run_program`, which writes the trace
-- of one program. A file is the list of its rows; a row keeps the values that the code prints.
pub mod Program
pub mod Numbering
use boom.Base.{
  ℕ, zero, suc, ◌+◌, ◌-◌, ◌*◌, ◌<<<◌, ◌>>>◌, bit_and, bit_or, u8, u32, u64, Bool, true, false, not,
  ◌&&◌, ◌||◌, ◌==◌, ◌!=◌, ltb, leb, if◌then◌else◌, List, [], ◌∷◌, ◌++◌, length, get_or, set,
  replicate,
}
use boom.Base.Rows.{Row, row}
use boom.Types.Codes.{dmem_store}
use boom.Types.Messages.{ImemRequest, ImemResponse, DmemRequest, DmemResponse}
use boom.Types.Entries.{CommitEntry}
use boom.Pipe.{PipeSignals, pipe_signals_init, write, full}
use boom.State.{AluResult, BoomCoreState, boom_core_state_init}
use boom.Core.{boom_core_step}
use boom.Tb.Memory.{aligned}

pub record ProgramSpec : Type 0 where
  pub prefix_commits : ℕ
  pub unsupported_pc : ℕ
  pub unsupported_inst : ℕ

abbrev spec : ℕ → ℕ → ProgramSpec
spec n pc = record { prefix_commits = n; unsupported_pc = pc; unsupported_inst = 0x0062B023 }

abbrev pub programs : List ProgramSpec
programs =
    spec 8 0x80000020
    ∷ spec 8 0x80000020
    ∷ spec 9 0x80000028
    ∷ spec 10 0x80000028
    ∷ spec 10 0x80000030
    ∷ []

abbrev pub entry_pc : ℕ
entry_pc = 0x80000000

abbrev pub tohost_addr : ℕ
tohost_addr = 0x80000080

abbrev pub max_cycles : ℕ
max_cycles = 500

pub record IdealMem : Type 0 where
  pub words : List ℕ
  pub bytes : List ℕ

unfoldable pub append_word : IdealMem → ℕ → IdealMem
append_word m word = record {
  words = m.words ++ word ∷ [];
  bytes =
      m.bytes
      ++ bit_and word 0xFF
        ∷ bit_and (word >>> 8) 0xFF
        ∷ bit_and (word >>> 16) 0xFF
        ∷ bit_and (word >>> 24) 0xFF
        ∷ [];
}

-- The value of a token of `size` digits: one word, or two.
unfoldable pub append_token : IdealMem → ℕ → ℕ → IdealMem
unfolding append_word
append_token m size value =
    let low = append_word m (u32 (bit_and value 0xFFFFFFFF)) in
    if leb size 8 then low else append_word low (u32 (bit_and (value >>> 32) 0xFFFFFFFF))

unfoldable pub read : IdealMem → ℕ → ℕ
read m addr =
    if ltb addr entry_pc
    then 0
    else (let index = (addr - entry_pc) >>> 2 in
        if leb (length m.words) index then 0 else get_or m.words index 0)

unfoldable pub read_byte : IdealMem → ℕ → ℕ
read_byte m addr =
    if ltb addr entry_pc
    then 0
    else (let offset = addr - entry_pc in
        if leb (length m.bytes) offset then 0 else get_or m.bytes offset 0)

-- The loop of `read_beat` from round `i` on, with `k` rounds left.
unfoldable beat_loop : IdealMem → ℕ → ℕ → ℕ → ℕ → ℕ
unfolding read_byte
beat_loop m base zero i value = value
beat_loop m base (suc k) i value =
    beat_loop m base k (i + 1) (bit_or value (read_byte m (base + i) <<< (8 * i)))

unfoldable pub read_beat : IdealMem → ℕ → ℕ
unfolding beat_loop aligned
read_beat m addr = beat_loop m (aligned addr) 8 0 0

-- `bytes.resize(n, 0)` where the bytes are fewer.
abbrev resized : List ℕ → ℕ → List ℕ
resized bytes n = if leb n (length bytes) then bytes else bytes ++ replicate (n - length bytes) 0

unfoldable pub write_byte : IdealMem → ℕ → ℕ → IdealMem
write_byte m addr value =
    if ltb addr entry_pc
    then m
    else record m { bytes = set (resized m.bytes (addr - entry_pc + 1)) (addr - entry_pc) value }

unfoldable write_from : ℕ → ℕ → ℕ → ℕ → IdealMem → IdealMem
unfolding write_byte
write_from addr value zero i m = m
write_from addr value (suc k) i m =
    write_from addr value k (i + 1)
      (write_byte m (u64 (addr + i)) (u8 (bit_and (value >>> (8 * i)) 0xFF)))

unfoldable pub write_sized : IdealMem → ℕ → ℕ → ℕ → IdealMem
unfolding write_from
write_sized m addr value size =
    write_from addr value (if leb 3 size then 8 else u32 (1 <<< size)) 0 m

pub data Mnemonic : Type 0 where
  addi auipc add beq bne sd jal jalr unknown : Mnemonic

unfoldable pub mnemonic : ℕ → Mnemonic
mnemonic inst =
    if opcode == 0x13 && funct3 == 0
    then addi
    else if opcode == 0x17
    then auipc
    else if opcode == 0x33 && funct3 == 0 && funct7 == 0
    then add
    else if opcode == 0x63 && funct3 == 0
    then beq
    else if opcode == 0x63 && funct3 == 1
    then bne
    else if opcode == 0x23 && funct3 == 3
    then sd
    else if opcode == 0x6F
    then jal
    else if opcode == 0x67
    then jalr
    else unknown
  where
    opcode : ℕ
    opcode = bit_and inst 0x7F

    funct3 : ℕ
    funct3 = bit_and (inst >>> 12) 0x7

    funct7 : ℕ
    funct7 = bit_and (inst >>> 25) 0x7F

abbrev pub is_control_inst : ℕ → Bool
is_control_inst inst =
    let opcode = bit_and inst 0x7F in opcode == 0x63 || opcode == 0x6F || opcode == 0x67

pub data Status : Type 0 where
  running complete_tohost prefix_complete complete_incomplete prefix_incomplete : Status

-- The kinds of row, each with its cycle first.
pub data Event : Type 0 where
  metadata : ℕ → ℕ → Status → Event
  branch_event : ℕ → AluResult → Event
  commit_event : ℕ → CommitEntry → Event
  tohost : ℕ → DmemRequest → ℕ → ℕ → Event
  unsupported_boundary : ℕ → ℕ → ℕ → Event

-- The file so far with `seq`, `prefix_commits` and `saw_tohost`.
pub record Log : Type 0 where
  pub rows : List (Row Event)
  pub seq : ℕ
  pub prefix_commits : ℕ
  pub saw_tohost : Bool

-- `fprintf` of one row with `seq++`.
unfoldable pub emit : Log → Event → Log
emit l e = record l { rows = l.rows ++ row l.seq e ∷ []; seq = u64 (l.seq + 1) }
