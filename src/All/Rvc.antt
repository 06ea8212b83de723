-- ===== src/All/Rvc.antt =====
-- `decompress_rvc` of src/boom_all.cpp: the 32-bit word of a compressed instruction, one function for
-- each quadrant.
pub mod Words
pub mod Immediate
use boom.Base.{ℕ, ◌+◌, ◌<<<◌, ◌>>>◌, bit_and, bit_or, u8, u32, Bool, ◌==◌, ◌!=◌, if◌then◌else◌}

-- `x | (rs1 << 15) | (f << 12) | (rd << 7) | op`
abbrev pub word : ℕ → ℕ → ℕ → ℕ → ℕ → ℕ
word x rs1 f rd op = bit_or (bit_or (bit_or (bit_or x (rs1 <<< 15)) (f <<< 12)) (rd <<< 7)) op

-- `(imm << 20) | …`
abbrev pub i_word : ℕ → ℕ → ℕ → ℕ → ℕ → ℕ
i_word imm rs1 f rd op = word (u32 (imm <<< 20)) rs1 f rd op

-- `(hi << 25) | (rs2 << 20) | …`
abbrev pub s_word : ℕ → ℕ → ℕ → ℕ → ℕ → ℕ → ℕ
s_word hi rs2 rs1 f lo op = word (bit_or (u32 (hi <<< 25)) (rs2 <<< 20)) rs1 f lo op

-- The immediate of six bits, with all that stands above bit 12.
abbrev pub imm_6 : ℕ → ℕ
imm_6 rvc = bit_or (bit_and (rvc >>> 2) 0x1F) (rvc >>> 12 <<< 5)

-- `if (imm & bit) imm |= ones`
abbrev pub extend : ℕ → ℕ → ℕ → ℕ
extend imm bit ones = if bit_and imm bit != 0 then bit_or imm ones else imm

abbrev pub signed_6 : ℕ → ℕ
signed_6 rvc = extend (imm_6 rvc) 0x20 0xFFFFFFC0

-- The offset of `c.lw` and `c.sw`.
pub imm_word : ℕ → ℕ
imm_word rvc =
    bit_or
      (bit_or (bit_or (bit_and (rvc >>> 5) 0x1) (bit_and (rvc >>> 10) 0x1C))
        (bit_and (rvc >>> 2) 0x40))
      (bit_and (rvc >>> 12) 0x20)

-- The offset of `c.jal` and `c.j`.
pub imm_jump : ℕ → ℕ
imm_jump rvc =
    let a = bit_or (bit_and (rvc >>> 3) 0x3) (bit_and (rvc >>> 2) 0x1C) in
    let b = bit_or (bit_or a (bit_and (rvc >>> 7) 0x10)) (bit_and (rvc >>> 1) 0x60) in
    let c = bit_or (bit_or b (bit_and (rvc >>> 7) 0x80)) (bit_and (rvc >>> 8) 0x300) in
    extend (bit_or c (rvc >>> 12 <<< 10)) 0x400 0xFFFFF800

-- `(imm << 12) | (rd << 15) | (0 << 12) | (rd << 7) | 0x6F`
abbrev pub j_word : ℕ → ℕ → ℕ
j_word imm rd = word (u32 (imm <<< 12)) rd 0 rd 0x6F

-- The offset of `c.beqz` and `c.bnez`, before its bits are moved and after.
pub imm_branch_raw : ℕ → ℕ
imm_branch_raw rvc =
    let a = bit_or (bit_and (rvc >>> 3) 0x3) (bit_and (rvc >>> 2) 0x1C) in
    let b = bit_or (bit_or a (bit_and (rvc >>> 10) 0x60)) (rvc >>> 12 <<< 7) in
    extend b 0x100 0xFFFFFE00

pub imm_branch : ℕ → ℕ
imm_branch rvc =
    let imm = imm_branch_raw rvc in
    let a = bit_or (bit_and (imm >>> 1) 0x3F) (bit_and imm 0x1 <<< 6) in
    let b = bit_or (bit_or a (imm >>> 8 <<< 7)) (bit_and (imm >>> 7) 0x1 <<< 11) in
    extend (bit_or b (bit_and (imm >>> 3) 0x10 <<< 8)) 0x800 0xFFFFF000

-- `c.beqz` and `c.bnez`, where `f` is the `funct3` and also what stands for the second register.
abbrev pub b_word : ℕ → ℕ → ℕ
b_word rvc f =
    s_word (bit_and (imm_branch rvc >>> 5) 0x7F) f (8 + bit_and (rvc >>> 7) 0x7) f
      (bit_and (imm_branch rvc) 0x1F) 0x63

abbrev pub rd_of : ℕ → ℕ
rd_of rvc = bit_and (rvc >>> 7) 0x1F

-- The offset of `c.addi4spn`.
pub imm_sp : ℕ → ℕ
imm_sp rvc =
    bit_or
      (bit_or (bit_or (bit_and (rvc >>> 5) 0x1) (bit_and (rvc >>> 1) 0x3C))
        (bit_and (rvc >>> 7) 0x30))
      (bit_and (rvc >>> 2) 0x1C0)

pub quadrant_0 : ℕ → ℕ → ℕ
quadrant_0 f rvc =
    if f == 0
    then (if rvc == 0 then 0x13 else i_word (imm_sp rvc) 2 0 (8 + bit_and (rvc >>> 2) 0x7) 0x13)
    else if f == 2
    then i_word (imm_word rvc) (8 + bit_and (rvc >>> 7) 0x7) 3 (8 + bit_and (rvc >>> 2) 0x7) 0x03
    else if f == 4
    then store_word
    else if f == 6
    then store_word
    else 0
  where
    store_word : ℕ
    store_word =
        s_word (imm_word rvc >>> 5) (8 + bit_and (rvc >>> 2) 0x7) (8 + bit_and (rvc >>> 7) 0x7) 3
          (bit_and (imm_word rvc) 0x1F) 0x23

-- The offset of `c.addi16sp`.
pub imm_16_sp : ℕ → ℕ
imm_16_sp rvc =
    let a = bit_or (bit_and (rvc >>> 3) 0x1) (bit_and (rvc >>> 2) 0xE) in
    let b = bit_or (bit_or a (bit_and (rvc >>> 5) 0x30)) (rvc >>> 12 <<< 7) in
    extend b 0x100 0xFFFFFE00

-- `c.addi16sp` and `c.lui`.
pub lui_or_sp : ℕ → ℕ → ℕ
lui_or_sp rd rvc =
    if rd == 2
    then i_word (imm_16_sp rvc) 2 0 2 0x13
    else if rd != 0
    then bit_or (bit_or (u32 (bit_and (signed_6 rvc) 0xFFFFF <<< 12)) (rd <<< 7)) 0x37
    else 0

-- The arithmetic of two registers.
abbrev pub r_word : ℕ → ℕ → ℕ → ℕ
r_word rvc f op =
    word (u8 (8 + bit_and (rvc >>> 2) 0x1F) <<< 20) (8 + bit_and (rvc >>> 2) 0x7) f
      (8 + bit_and (rvc >>> 2) 0x7) op

pub two_registers : ℕ → ℕ → ℕ
two_registers g rvc =
    if g == 0
    then r_word rvc 0 0x33
    else if g == 1
    then r_word rvc 4 0x33
    else if g == 2
    then r_word rvc 6 0x33
    else r_word rvc 7 0x33

-- The shifts, `c.andi` and the arithmetic of two registers.
pub arithmetic : ℕ → ℕ → ℕ → ℕ
arithmetic one g rvc =
    if one == 0
    then if g == 0
      then i_word (imm_6 rvc) (rd_of rvc) 5 (rd_of rvc) 0x13
      else if g == 1
      then word (bit_or 0x400 (u32 (imm_6 rvc <<< 20))) (rd_of rvc) 5 (rd_of rvc) 0x13
      else if g == 2
      then i_word (imm_6 rvc) (rd_of rvc) 7 (rd_of rvc) 0x13
      else two_registers (bit_and (rvc >>> 5) 0x3) rvc
    else r_word rvc 0 0x3B

pub quadrant_1 : ℕ → ℕ → ℕ
quadrant_1 f rvc =
    if f == 0
    then i_word (signed_6 rvc) 0 0 (rd_of rvc) 0x13
    else if f == 1
    then (if rd_of rvc != 0
        then i_word (signed_6 rvc) (rd_of rvc) 0 (rd_of rvc) 0x1B
        else j_word (imm_jump rvc) 1)
    else if f == 2
    then i_word (signed_6 rvc) 0 0 (rd_of rvc) 0x13
    else if f == 3
    then lui_or_sp (rd_of rvc) rvc
    else if f == 4
    then arithmetic (bit_and (rvc >>> 12) 0x1) (bit_and (rvc >>> 10) 0x3) rvc
    else if f == 5
    then j_word (imm_jump rvc) 0
    else if f == 6
    then b_word rvc 0
    else b_word rvc 1

-- The offset of `c.lwsp` and of `c.swsp`.
pub imm_lwsp : ℕ → ℕ
imm_lwsp rvc =
    bit_or (bit_or (bit_and (rvc >>> 4) 0x3) (bit_and (rvc >>> 2) 0x1C)) (rvc >>> 12 <<< 5)

pub imm_swsp : ℕ → ℕ
imm_swsp rvc = bit_or (bit_and (rvc >>> 9) 0x3) (bit_and (rvc >>> 7) 0x3C)

-- `c.jr`, `c.mv` and `c.add`.
pub jump_or_move : ℕ → ℕ → ℕ
jump_or_move rs2 rvc =
    if rs2 == 0
    then if rd_of rvc == 0 then 0 else i_word 0 (rd_of rvc) 0 0 0x67
    else i_word rs2 (rd_of rvc) 0 (rd_of rvc) 0x33

pub quadrant_2 : ℕ → ℕ → ℕ
quadrant_2 f rvc =
    if f == 0
    then i_word (imm_6 rvc) (rd_of rvc) 1 (rd_of rvc) 0x13
    else if f == 2
    then i_word (imm_lwsp rvc) 2 3 (rd_of rvc) 0x03
    else if f == 4
    then jump_or_move (bit_and (rvc >>> 2) 0x1F) rvc
    else if f == 6
    then s_word (bit_and (imm_swsp rvc >>> 5) 0x7F) (bit_and (rvc >>> 2) 0x1F) 2 3
        (bit_and (imm_swsp rvc) 0x1F) 0x23
    else 0

pub decompress_rvc : ℕ → ℕ
decompress_rvc rvc =
    let op = bit_and rvc 0x3 in
    let f = bit_and (rvc >>> 13) 0x7 in
    if op == 0
    then quadrant_0 f rvc
    else if op == 1
    then quadrant_1 f rvc
    else if op == 2
    then quadrant_2 f rvc
    else 0
