-- ===== src/Tb/Encode.antt =====
-- The instruction encoders of tb/tb_boom_core.cpp and tb/differential/lsu_minimal_tests.cpp. Register
-- numbers, codes and immediates are patterns; a negative immediate is its 32-bit pattern.
pub mod Fields
pub mod RoundTrip
use boom.Base.{ℕ, ◌<<<◌, ◌>>>◌, bit_and, bit_or, u32}

-- `make_itype` and `MI`.
unfoldable pub make_itype : ℕ → ℕ → ℕ → ℕ → ℕ → ℕ
make_itype imm rs1 f3 rd opc =
    bit_or (bit_or (bit_or (bit_or (bit_and imm 0xFFF <<< 20) (rs1 <<< 15)) (f3 <<< 12)) (rd <<< 7))
      opc

unfoldable pub make_rtype : ℕ → ℕ → ℕ → ℕ → ℕ → ℕ → ℕ
make_rtype f7 rs2 rs1 f3 rd opc =
    bit_or
      (bit_or (bit_or (bit_or (bit_or (f7 <<< 25) (rs2 <<< 20)) (rs1 <<< 15)) (f3 <<< 12))
        (rd <<< 7))
      opc

unfoldable pub make_utype : ℕ → ℕ → ℕ → ℕ
make_utype imm rd opc = bit_or (bit_or (bit_and imm 0xFFFFF000) (rd <<< 7)) opc

-- `make_jtype` and `MJ`.
unfoldable pub make_jtype : ℕ → ℕ → ℕ → ℕ
make_jtype imm rd opc =
    let v = bit_and (imm >>> 20) 0x1 <<< 31 in
    let v = bit_or v (bit_and (imm >>> 1) 0x3FF <<< 21) in
    let v = bit_or v (bit_and (imm >>> 11) 0x1 <<< 20) in
    let v = bit_or v (bit_and (imm >>> 12) 0xFF <<< 12) in bit_or (bit_or v (rd <<< 7)) opc

-- `MS`
unfoldable pub make_stype : ℕ → ℕ → ℕ → ℕ → ℕ
make_stype imm rs2 rs1 f3 =
    bit_or
      (bit_or
        (bit_or (bit_or (bit_or (u32 ((imm >>> 5) <<< 25)) (rs2 <<< 20)) (rs1 <<< 15)) (f3 <<< 12))
        (bit_and imm 0x1F <<< 7))
      0x23

-- `ML`
unfoldable pub make_load : ℕ → ℕ → ℕ → ℕ → ℕ
unfolding make_itype
make_load imm rs1 f3 rd = make_itype imm rs1 f3 rd 0x03

-- `MB`
unfoldable pub make_btype : ℕ → ℕ → ℕ → ℕ → ℕ
make_btype imm rs2 rs1 f3 =
    let b = bit_and (imm >>> 12) 1 <<< 31 in
    let b = bit_or b (bit_and (imm >>> 5) 0x3F <<< 25) in
    let b = bit_or b (bit_and (imm >>> 1) 0xF <<< 8) in
    let b = bit_or b (bit_and (imm >>> 11) 1 <<< 7) in
    bit_or (bit_or (bit_or (bit_or b (rs2 <<< 20)) (rs1 <<< 15)) (f3 <<< 12)) 0x63

abbrev pub make_ecall : ℕ
make_ecall = 0x00000073
