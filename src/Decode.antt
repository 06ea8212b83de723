-- ===== src/Decode.antt =====
-- src/decode.cpp: from a fetched instruction to a micro-operation.
pub mod Uopc
pub mod Fields
pub mod Opcodes
pub mod Immediates
use boom.Base.{ℕ, Bool, true, false, not, ◌&&◌, ◌||◌, ◌==◌, if◌then◌else◌, bit_and}
use boom.Types.Uop.{MicroOp, micro_op_init}
use boom.State.{BoomCoreState}
use Fields.{opcode, lrs1, lrs2, rd}
use Opcodes.{
  lui, auipc, jal, jalr, branch, load, store, op_imm, op_imm_32, op, op_32, fence, system, unknown,
  illegal_2,
}

-- The fields that do not depend on the opcode.
unfoldable pub common_fields : ℕ → ℕ → MicroOp
common_fields pc inst = record micro_op_init {
  inst = inst;
  debug_pc = pc;
  rename = record micro_op_init.rename { lrs1 = lrs1 inst; lrs2 = lrs2 inst; ldst = rd inst };
  branch = record micro_op_init.branch { pc_lob = bit_and pc 0x3F };
}

-- The switch over the opcode.
unfoldable pub by_opcode : ℕ → ℕ → MicroOp → MicroOp
by_opcode c inst u =
    if c == 0x37
    then lui inst u
    else if c == 0x17
    then auipc inst u
    else if c == 0x6F
    then jal inst u
    else if c == 0x67
    then jalr inst u
    else if c == 0x63
    then branch inst u
    else if c == 0x03
    then load inst u
    else if c == 0x23
    then store inst u
    else if c == 0x13
    then op_imm inst u
    else if c == 0x1B
    then op_imm_32 inst u
    else if c == 0x33
    then op inst u
    else if c == 0x3B
    then op_32 inst u
    else if c == 0x0F
    then fence u
    else if c == 0x73
    then system inst u
    else unknown u

-- Line 219: an illegal operation that raised no exception yet raises one.
unfoldable pub raise_illegal : MicroOp → MicroOp
raise_illegal u = if u.uopc == Uopc.illegal && not u.exception then illegal_2 u else u

unfoldable pub decode : ℕ → ℕ → MicroOp
decode pc inst = raise_illegal (by_opcode (opcode inst) inst (common_fields pc inst))

unfoldable pub decode_module : BoomCoreState → BoomCoreState
decode_module s =
    if s.global_flush || not s.frontend.fetch_packet_valid
    then record s { decode = record s.decode { dec_valid = false } }
    else record s {
      decode = record {
        dec_uop = decode s.frontend.fetch_uop.debug_pc s.frontend.fetch_uop.inst;
        dec_valid = true;
      };
    }
