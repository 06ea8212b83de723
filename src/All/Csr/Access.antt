-- ===== src/All/Csr/Access.antt =====
-- Reads and writes of the CSR file of src/boom_all.cpp.
use boom.Base.{
  ℕ, ◌≡◌, ◌≤◌, refl, ap, ◌∙◌, arith, Bool, true, false, not, ◌&&◌, ◌||◌, ◌==◌, ◌!=◌, leb,
  if◌then◌else◌, bit_and, bit_or,
}
use boom.Types.Uop.{MicroOp}
use boom.State.{CsrState}
use boom.All.Csr.{csr_read, csr_write, csr_rw_op, complement}

-- The registers that a write reaches.
abbrev pub is_writable : ℕ → Bool
is_writable a = a == 0x300 || a == 0x304 || a == 0x305 || leb 0x340 a && leb a 0x344 || a == 0x180

read-mstatus :
    (csr : CsrState) (v b : ℕ)
    → csr_read (record csr { mstatus = v }) b ≡ (if b == 0x300 then v else csr_read csr b)
unfolding csr_read
read-mstatus csr v b = ground arith

read-mie :
    (csr : CsrState) (v b : ℕ)
    → csr_read (record csr { mie = v }) b ≡ (if b == 0x304 then v else csr_read csr b)
unfolding csr_read
read-mie csr v b = ground arith

read-mtvec :
    (csr : CsrState) (v b : ℕ)
    → csr_read (record csr { mtvec = v }) b ≡ (if b == 0x305 then v else csr_read csr b)
unfolding csr_read
read-mtvec csr v b = ground arith

read-mscratch :
    (csr : CsrState) (v b : ℕ)
    → csr_read (record csr { mscratch = v }) b ≡ (if b == 0x340 then v else csr_read csr b)
unfolding csr_read
read-mscratch csr v b = ground arith

read-mepc :
    (csr : CsrState) (v b : ℕ)
    → csr_read (record csr { mepc = v }) b ≡ (if b == 0x341 then v else csr_read csr b)
unfolding csr_read
read-mepc csr v b = ground arith

read-mcause :
    (csr : CsrState) (v b : ℕ)
    → csr_read (record csr { mcause = v }) b ≡ (if b == 0x342 then v else csr_read csr b)
unfolding csr_read
read-mcause csr v b = ground arith

read-mtval :
    (csr : CsrState) (v b : ℕ)
    → csr_read (record csr { mtval = v }) b ≡ (if b == 0x343 then v else csr_read csr b)
unfolding csr_read
read-mtval csr v b = ground arith

read-mip :
    (csr : CsrState) (v b : ℕ)
    → csr_read (record csr { mip = v }) b ≡ (if b == 0x344 then v else csr_read csr b)
unfolding csr_read
read-mip csr v b = ground arith

read-satp :
    (csr : CsrState) (v b : ℕ)
    → csr_read (record csr { satp = v }) b ≡ (if b == 0x180 then v else csr_read csr b)
unfolding csr_read
read-satp csr v b = ground arith

-- The ten ways of a write.
write_cases :
    (P : CsrState → Type 0) (csr : CsrState) (a v : ℕ)
    → (a ≡ 0x300 → P (record csr { mstatus = v }))
    → (a ≡ 0x304 → P (record csr { mie = v }))
    → (a ≡ 0x305 → P (record csr { mtvec = v }))
    → (a ≡ 0x340 → P (record csr { mscratch = v }))
    → (a ≡ 0x341 → P (record csr { mepc = v }))
    → (a ≡ 0x342 → P (record csr { mcause = v }))
    → (a ≡ 0x343 → P (record csr { mtval = v }))
    → (a ≡ 0x344 → P (record csr { mip = v }))
    → (a ≡ 0x180 → P (record csr { satp = v }))
    → (is_writable a ≡ false → P csr)
    → P (csr_write csr a v)
unfolding csr_write
write_cases P csr a v c1 c2 c3 c4 c5 c6 c7 c8 c9 rest = ground arith

-- A test for a register that the address names.
at_address :
    (a b k v r : ℕ)
    → is_writable k ≡ true
    → a ≡ k
    → (if b == k then v else r) ≡ (if a == b && is_writable a then v else r)
at_address a b k v r w e = ground arith

unwritten : (a b v r : ℕ) → is_writable a ≡ false → r ≡ (if a == b && is_writable a then v else r)
unwritten a b v r w = ground arith

-- What is read at any address after a write at any: the value written if the addresses agree and the
-- register can be written, and otherwise what was there.
pub csr_read-csr_write :
    (csr : CsrState) (a b v : ℕ)
    → csr_read (csr_write csr a v) b ≡ (if a == b && is_writable a then v else csr_read csr b)
csr_read-csr_write csr a b v =
    write_cases (λ t. csr_read t b ≡ (if a == b && is_writable a then v else csr_read csr b)) csr a
      v (λ e. read-mstatus csr v b ∙ at_address a b 0x300 v (csr_read csr b) refl e)
      (λ e. read-mie csr v b ∙ at_address a b 0x304 v (csr_read csr b) refl e)
      (λ e. read-mtvec csr v b ∙ at_address a b 0x305 v (csr_read csr b) refl e)
      (λ e. read-mscratch csr v b ∙ at_address a b 0x340 v (csr_read csr b) refl e)
      (λ e. read-mepc csr v b ∙ at_address a b 0x341 v (csr_read csr b) refl e)
      (λ e. read-mcause csr v b ∙ at_address a b 0x342 v (csr_read csr b) refl e)
      (λ e. read-mtval csr v b ∙ at_address a b 0x343 v (csr_read csr b) refl e)
      (λ e. read-mip csr v b ∙ at_address a b 0x344 v (csr_read csr b) refl e)
      (λ e. read-satp csr v b ∙ at_address a b 0x180 v (csr_read csr b) refl e)
      (unwritten a b v (csr_read csr b))

-- What the six operations (67 to 72) make of the old value and their operand, which is a register for
-- the first three and the immediate for the others.
abbrev pub operand : MicroOp → ℕ → ℕ
operand u rs1 = if leb u.uopc 69 then rs1 else u.imm_packed

abbrev pub replaces : MicroOp → Bool
replaces u = u.uopc == 67 || u.uopc == 70

abbrev pub sets : MicroOp → Bool
sets u = u.uopc == 68 || u.uopc == 71

abbrev pub combine : MicroOp → ℕ → ℕ → ℕ
combine u old x =
    if replaces u then x else if sets u then bit_or old x else bit_and old (complement x)

-- Whether the operation writes.
abbrev pub has_effect : MicroOp → ℕ → Bool
has_effect u x = u.rename.ldst != 0 || not (replaces u) && x != 0

rw_op_is_write :
    (csr : CsrState) (u : MicroOp) (rs1 : ℕ)
    → 67 ≤ u.uopc
    → u.uopc ≤ 72
    → (csr_rw_op csr u rs1).0 ≡ (
        if has_effect u (operand u rs1)
        then csr_write csr u.csr_addr (combine u (csr_read csr u.csr_addr) (operand u rs1))
        else csr)
unfolding csr_rw_op
rw_op_is_write csr u rs1 lo hi = ground arith

read_if :
    (e : Bool) (csr : CsrState) (a b v : ℕ)
    → csr_read (if e then csr_write csr a v else csr) b
      ≡ (if e && (a == b && is_writable a) then v else csr_read csr b)
read_if true csr a b v = csr_read-csr_write csr a b v
read_if false csr a b v = refl

-- A CSR operation returns the value before it, and afterwards a read at any address gives the operation's
-- value if the operation has an effect and names this address, which can be written, and otherwise what
-- was there. It has an effect if it has a destination register other than x0, or sets or clears bits
-- that its operand names.
pub csr_rw_op_lem :
    (csr : CsrState) (u : MicroOp) (rs1 b : ℕ)
    → 67 ≤ u.uopc
    → u.uopc ≤ 72
    → ((csr_rw_op csr u rs1).1 ≡ csr_read csr u.csr_addr)
      × (csr_read (csr_rw_op csr u rs1).0 b ≡ (
          if has_effect u (operand u rs1) && (u.csr_addr == b && is_writable u.csr_addr)
          then combine u (csr_read csr u.csr_addr) (operand u rs1)
          else csr_read csr b))
unfolding csr_rw_op
csr_rw_op_lem csr u rs1 b lo hi = (
  refl,
  ap (λ (t : CsrState). csr_read t b) (rw_op_is_write csr u rs1 lo hi)
      ∙ read_if (has_effect u (operand u rs1)) csr u.csr_addr b
          (combine u (csr_read csr u.csr_addr) (operand u rs1)),
)
