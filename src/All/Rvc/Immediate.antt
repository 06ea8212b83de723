-- ===== src/All/Rvc/Immediate.antt =====
-- The immediate of six bits in src/boom_all.cpp takes the bits above bit 12 with it.
use boom.Base.{ℕ, ◌+◌, ◌*◌, ◌/◌, ◌%◌, ◌^◌, ◌<◌, ◌≡◌, ap, ap₂, ◌∙◌, arith, bit_or, bit_and, u32}
use boom.Base.Bits.{bit_or_above, bit_and-low_mask, bit_and_digit, bit_or-zero, bit_or_shifted}
use boom.All.Rvc.{i_word, decompress_rvc, quadrant_1, imm_6, signed_6, rd_of}

-- The immediate field of an instruction of that form without its other fields.
imm_field :
    (x rd : ℕ)
    → rd < 32
    → bit_or (bit_or (bit_or (bit_or x 0) 0) (rd * 2 ^ 7)) 0x13 / 2 ^ 20 ≡ x / 2 ^ 20
imm_field x rd h =
    bit_or_shifted 20 (bit_or (bit_or (bit_or x 0) 0) (rd * 2 ^ 7)) 0x13
    ∙ bit_or-zero _
    ∙ bit_or_shifted 20 (bit_or (bit_or x 0) 0) (rd * 2 ^ 7)
    ∙ ap₂ bit_or (ap (λ (t : ℕ). t / 2 ^ 20) (bit_or-zero (bit_or x 0) ∙ bit_or-zero x)) none
    ∙ bit_or-zero (x / 2 ^ 20)
  where
    none : rd * 2 ^ 7 / 2 ^ 20 ≡ 0
    none = omega arith

bit_5_clear : (low : ℕ) → low < 32 → bit_and (low + 128) 0x20 ≡ 0
bit_5_clear low h = omega (
  arith,
  bit_and_digit (low + 128) 0x20,
  bit_and_digit ((low + 128) / 2) 0x10,
  bit_and_digit ((low + 128) / 2 / 2) 0x8,
  bit_and_digit ((low + 128) / 2 / 2 / 2) 0x4,
  bit_and_digit ((low + 128) / 2 / 2 / 2 / 2) 0x2,
  bit_and-low_mask 1 ((low + 128) / 2 / 2 / 2 / 2 / 2),
)

imm_6_positive : (rvc : ℕ) → rvc / 2 ^ 12 ≡ 4 → imm_6 rvc ≡ rvc / 4 % 32 + 128
imm_6_positive rvc e =
    ap₂ bit_or (bit_and-low_mask 5 (rvc / 4)) (ap (λ (t : ℕ). t * 2 ^ 5) e)
    ∙ bit_or_above 5 (rvc / 4 % 32) 4 (omega arith)

signed_6_positive : (rvc : ℕ) → rvc / 2 ^ 12 ≡ 4 → signed_6 rvc ≡ rvc / 4 % 32 + 128
signed_6_positive rvc e =
    ground (arith, imm_6_positive rvc e, bit_5_clear (rvc / 4 % 32) (omega arith))

rd_of-lt : (rvc : ℕ) → rd_of rvc < 32
rd_of-lt rvc = omega (arith, bit_and-low_mask 5 (rvc / 2 ^ 7))

c_li_word :
    (rvc : ℕ)
    → rvc / 2 ^ 12 ≡ 4
    → rvc % 4 ≡ 1
    → decompress_rvc rvc ≡ i_word (signed_6 rvc) 0 0 (rd_of rvc) 0x13
unfolding decompress_rvc quadrant_1
c_li_word rvc e4 e1 = ground (arith, bit_and-low_mask 2 rvc, bit_and-low_mask 3 (rvc / 2 ^ 13))

-- `c.li` of a number `n` that is not negative, in five bits, is expanded to the load of `n + 128`: the
-- immediate also takes the top bit of the opcode.
c_li_adds_opcode :
    (rvc : ℕ) → rvc / 2 ^ 12 ≡ 4 → rvc % 4 ≡ 1 → decompress_rvc rvc / 2 ^ 20 ≡ rvc / 4 % 32 + 128
c_li_adds_opcode rvc e4 e1 =
    ap (λ (w : ℕ). w / 2 ^ 20) (c_li_word rvc e4 e1)
    ∙ imm_field (u32 (signed_6 rvc * 2 ^ 20)) (rd_of rvc) (rd_of-lt rvc)
    ∙ omega (arith, signed_6_positive rvc e4)
