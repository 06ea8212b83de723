-- ===== src/All/Rvc/Words.antt =====
-- What src/boom_all.cpp expands is a 32-bit word, or nothing.
use boom.Base.{
  ℕ, ◌/◌, ◌%◌, ◌≡◌, refl, arith, bit_or, bit_and, ◌>>>◌, ◌⊎◌, inl, inr, if_either, ◌==◌, ◌!=◌,
}
use boom.Base.Bits.{bit_or_digit}
use boom.All.Rvc.{
  decompress_rvc, quadrant_0, quadrant_1, quadrant_2, lui_or_sp, arithmetic, two_registers,
  jump_or_move, rd_of,
}

-- The low bits 11 are those of a 32-bit instruction.
abbrev pub IsExpanded : ℕ → Type 0
IsExpanded w = (w ≡ 0) ⊎ (w % 4 ≡ 3)

low_bits : (x op : ℕ) → op % 4 ≡ 3 → IsExpanded (bit_or x op)
low_bits x op h = inr (omega (arith, bit_or_digit x op, bit_or_digit (x / 2) (op / 2)))

zero-IsExpanded : IsExpanded 0
zero-IsExpanded = inl refl

quadrant_0-IsExpanded : (f rvc : ℕ) → IsExpanded (quadrant_0 f rvc)
unfolding quadrant_0
quadrant_0-IsExpanded f rvc =
    if_either IsExpanded (f == 0)
      (if_either IsExpanded (rvc == 0) (inr refl) (low_bits _ 0x13 refl))
      (if_either IsExpanded (f == 2) (low_bits _ 0x03 refl) (
        if_either IsExpanded (f == 4) (low_bits _ 0x23 refl)
          (if_either IsExpanded (f == 6) (low_bits _ 0x23 refl) zero-IsExpanded)))

lui_or_sp-IsExpanded : (rd rvc : ℕ) → IsExpanded (lui_or_sp rd rvc)
unfolding lui_or_sp
lui_or_sp-IsExpanded rd rvc =
    if_either IsExpanded (rd == 2) (low_bits _ 0x13 refl)
      (if_either IsExpanded (rd != 0) (low_bits _ 0x37 refl) zero-IsExpanded)

two_registers-IsExpanded : (g rvc : ℕ) → IsExpanded (two_registers g rvc)
unfolding two_registers
two_registers-IsExpanded g rvc = if_either IsExpanded (g == 0) (low_bits _ 0x33 refl) (
    if_either IsExpanded (g == 1) (low_bits _ 0x33 refl)
      (if_either IsExpanded (g == 2) (low_bits _ 0x33 refl) (low_bits _ 0x33 refl)))

arithmetic-IsExpanded : (one g rvc : ℕ) → IsExpanded (arithmetic one g rvc)
unfolding arithmetic
arithmetic-IsExpanded one g rvc =
    if_either IsExpanded (one == 0)
      (if_either IsExpanded (g == 0) (low_bits _ 0x13 refl) (
        if_either IsExpanded (g == 1) (low_bits _ 0x13 refl) (
          if_either IsExpanded (g == 2) (low_bits _ 0x13 refl)
            (two_registers-IsExpanded (bit_and (rvc >>> 5) 0x3) rvc))))
      (low_bits _ 0x3B refl)

quadrant_1-IsExpanded : (f rvc : ℕ) → IsExpanded (quadrant_1 f rvc)
unfolding quadrant_1
quadrant_1-IsExpanded f rvc = if_either IsExpanded (f == 0) (low_bits _ 0x13 refl) (
    if_either IsExpanded (f == 1)
      (if_either IsExpanded (rd_of rvc != 0) (low_bits _ 0x1B refl) (low_bits _ 0x6F refl))
      (if_either IsExpanded (f == 2) (low_bits _ 0x13 refl) (
        if_either IsExpanded (f == 3) (lui_or_sp-IsExpanded (rd_of rvc) rvc) (
          if_either IsExpanded (f == 4)
            (arithmetic-IsExpanded (bit_and (rvc >>> 12) 0x1) (bit_and (rvc >>> 10) 0x3) rvc)
            (if_either IsExpanded (f == 5) (low_bits _ 0x6F refl)
              (if_either IsExpanded (f == 6) (low_bits _ 0x63 refl) (low_bits _ 0x63 refl)))))))

jump_or_move-IsExpanded : (rs2 rvc : ℕ) → IsExpanded (jump_or_move rs2 rvc)
unfolding jump_or_move
jump_or_move-IsExpanded rs2 rvc =
    if_either IsExpanded (rs2 == 0)
      (if_either IsExpanded (rd_of rvc == 0) zero-IsExpanded (low_bits _ 0x67 refl))
      (low_bits _ 0x33 refl)

quadrant_2-IsExpanded : (f rvc : ℕ) → IsExpanded (quadrant_2 f rvc)
unfolding quadrant_2
quadrant_2-IsExpanded f rvc = if_either IsExpanded (f == 0) (low_bits _ 0x13 refl) (
    if_either IsExpanded (f == 2) (low_bits _ 0x03 refl) (
      if_either IsExpanded (f == 4) (jump_or_move-IsExpanded (bit_and (rvc >>> 2) 0x1F) rvc)
        (if_either IsExpanded (f == 6) (low_bits _ 0x23 refl) zero-IsExpanded)))

-- Every compressed instruction is expanded to a word whose low bits 11 mark a 32-bit instruction, or to
-- 0, which is none.
decompress_rvc-IsExpanded : (rvc : ℕ) → IsExpanded (decompress_rvc rvc)
unfolding decompress_rvc
decompress_rvc-IsExpanded rvc =
    let f = bit_and (rvc >>> 13) 0x7 in
    if_either IsExpanded (bit_and rvc 0x3 == 0) (quadrant_0-IsExpanded f rvc) (
      if_either IsExpanded (bit_and rvc 0x3 == 1) (quadrant_1-IsExpanded f rvc)
        (if_either IsExpanded (bit_and rvc 0x3 == 2) (quadrant_2-IsExpanded f rvc) zero-IsExpanded))
