-- ===== src/All/Csr.antt =====
-- The CSR file of src/boom_all.cpp, lines 1752 to 1903.
pub mod Access
use boom.Base.{
  ℕ, ◌+◌, ◌-◌, ◌^◌, ◌>>>◌, bit_and, bit_or, u8, u64, Bool, not, ◌&&◌, ◌||◌, ◌==◌, ◌!=◌, leb,
  if◌then◌else◌, get_or,
}
use boom.Types.Codes.{fu_csr}
use boom.Types.Uop.{MicroOp}
use boom.State.{CsrState, BoomCoreState, AluResult}

pub csr_read : CsrState → ℕ → ℕ
csr_read csr addr =
    if addr == 0x300
    then csr.mstatus
    else if addr == 0x301
    then csr.misa
    else if addr == 0x304
    then csr.mie
    else if addr == 0x305
    then csr.mtvec
    else if addr == 0x340
    then csr.mscratch
    else if addr == 0x341
    then csr.mepc
    else if addr == 0x342
    then csr.mcause
    else if addr == 0x343
    then csr.mtval
    else if addr == 0x344
    then csr.mip
    else if addr == 0x180
    then csr.satp
    else if addr == 0xC00
    then bit_and csr.cycle 0xFFFFFFFF
    else if addr == 0xC80
    then bit_and (csr.cycle >>> 32) 0xFFFFFFFF
    else if addr == 0xC02
    then bit_and csr.instret 0xFFFFFFFF
    else if addr == 0xC82
    then bit_and (csr.instret >>> 32) 0xFFFFFFFF
    else 0

pub csr_write : CsrState → ℕ → ℕ → CsrState
csr_write csr addr v =
    if addr == 0x300
    then record csr { mstatus = v }
    else if addr == 0x304
    then record csr { mie = v }
    else if addr == 0x305
    then record csr { mtvec = v }
    else if addr == 0x340
    then record csr { mscratch = v }
    else if addr == 0x341
    then record csr { mepc = v }
    else if addr == 0x342
    then record csr { mcause = v }
    else if addr == 0x343
    then record csr { mtval = v }
    else if addr == 0x344
    then record csr { mip = v }
    else if addr == 0x180
    then record csr { satp = v }
    else csr

-- `~x`
abbrev pub complement : ℕ → ℕ
complement x = 2 ^ 64 - 1 - x

abbrev write_if : Bool → CsrState → ℕ → ℕ → CsrState
write_if b csr addr v = if b then csr_write csr addr v else csr

-- The file after the operation; the value that it returns is the one read before.
pub csr_rw_op : CsrState → MicroOp → ℕ → CsrState × ℕ
csr_rw_op csr u rs1 = (
  if u.uopc == 67
      then write_if has_rd csr addr rs1
      else if u.uopc == 68
      then write_if (rs1 != 0 || has_rd) csr addr (bit_or old rs1)
      else if u.uopc == 69
      then write_if (rs1 != 0 || has_rd) csr addr (bit_and old (complement rs1))
      else if u.uopc == 70
      then write_if has_rd csr addr u.imm_packed
      else if u.uopc == 71
      then write_if (u.imm_packed != 0 || has_rd) csr addr (bit_or old u.imm_packed)
      else if u.uopc == 72
      then write_if (u.imm_packed != 0 || has_rd) csr addr (bit_and old (complement u.imm_packed))
      else csr,
  old,
)
  where
    addr : ℕ
    addr = u.csr_addr

    old : ℕ
    old = csr_read csr u.csr_addr

    has_rd : Bool
    has_rd = u.rename.ldst != 0

-- The privilege of `mret` (118) and of `sret` (119).
pub by_csr_uopc : CsrState → MicroOp → ℕ → CsrState
by_csr_uopc csr u rs1 =
    if leb 67 u.uopc && leb u.uopc 72
    then (csr_rw_op csr u rs1).0
    else if u.uopc == 118
    then record csr { priv = bit_and (csr.mstatus >>> 11) 0x3 }
    else if u.uopc == 119
    then record csr { priv = bit_and (csr.mstatus >>> 8) 0x1 }
    else csr

pub csr_step : CsrState → AluResult → BoomCoreState → CsrState
csr_step current r s =
    let next = record current { cycle = u64 (current.cycle + 1) } in
    if r.valid && r.uop.fu_code == fu_csr
    then by_csr_uopc next r.uop (get_or s.int_rf r.uop.rename.prs1 0)
    else next
