-- ===== src/Decode/Fields.antt =====
-- src/decode.cpp, lines 84 to 93 and 111 to 119: the fields and immediates of an instruction word.
-- A word is a number below 2 ^ 32; a signed value is its two's complement pattern.
use boom.Base.{ℕ, ◌<<<◌, ◌>>>◌, bit_and, bit_or, sra32, ◌!=◌, if◌then◌else◌}

unfoldable pub opcode : ℕ → ℕ
opcode inst = bit_and inst 0x7F

unfoldable pub rd : ℕ → ℕ
rd inst = bit_and (inst >>> 7) 0x1F

unfoldable pub f3 : ℕ → ℕ
f3 inst = bit_and (inst >>> 12) 0x7

unfoldable pub lrs1 : ℕ → ℕ
lrs1 inst = bit_and (inst >>> 15) 0x1F

unfoldable pub lrs2 : ℕ → ℕ
lrs2 inst = bit_and (inst >>> 20) 0x1F

unfoldable pub f7 : ℕ → ℕ
f7 inst = bit_and (inst >>> 25) 0x7F

unfoldable pub extract_imm_i : ℕ → ℕ
extract_imm_i inst = sra32 inst 20

unfoldable pub extract_imm_s : ℕ → ℕ
extract_imm_s inst =
    let v = bit_or (bit_and (sra32 inst 20) 0xFFFFFE0) (bit_and (inst >>> 7) 0x1F) in
    if bit_and v 0x800 != 0 then bit_or v 0xFFFFF000 else v

unfoldable pub extract_imm_b : ℕ → ℕ
extract_imm_b inst =
    let low = bit_and (inst >>> 8) 0xF <<< 1 in
    let mid = bit_or low (bit_and (inst >>> 25) 0x3F <<< 5) in
    let high = bit_or mid (bit_and (inst >>> 7) 0x1 <<< 11) in
    let v = bit_or high (bit_and (inst >>> 31) 0x1 <<< 12) in
    if bit_and v 0x1000 != 0 then bit_or v 0xFFFFE000 else v

unfoldable pub extract_imm_u : ℕ → ℕ
extract_imm_u inst = bit_and inst 0xFFFFF000

unfoldable pub extract_imm_j : ℕ → ℕ
extract_imm_j inst =
    let low = bit_and (inst >>> 21) 0x3FF <<< 1 in
    let mid = bit_or low (bit_and (inst >>> 20) 0x1 <<< 11) in
    let high = bit_or mid (bit_and (inst >>> 12) 0xFF <<< 12) in
    let v = bit_or high (bit_and (inst >>> 31) 0x1 <<< 20) in
    if bit_and v 0x100000 != 0 then bit_or v 0xFFE00000 else v
