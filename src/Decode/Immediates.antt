-- ===== src/Decode/Immediates.antt =====
-- The immediates of src/decode.cpp are the signed numbers that the instruction formats define.
use boom.Base.{
  ℕ, ◌+◌, ◌-◌, ◌*◌, ◌/◌, ◌%◌, ◌^◌, ◌<◌, ◌≡◌, ap, ap₂, ◌∙◌, arith, ltb, ◌!=◌, if◌then◌else◌, bit_and,
  bit_or, sra32,
}
use boom.Base.Bits.{
  bit_and-low_mask, bit_and-high_mask, bit_or_above, bit_or_comm, bit_and-bit, bit_or-high_mask,
}
use boom.Decode.Fields.{extract_imm_i, extract_imm_s, extract_imm_b, extract_imm_u, extract_imm_j}

-- The 32-bit pattern of the signed number that has the pattern `v` in `k` bits.
abbrev pub signed_pattern : ℕ → ℕ → ℕ
signed_pattern k v = if ltb v (2 ^ (k - 1)) then v else v + 2 ^ 32 - 2 ^ k

-- The fields of the formats.
abbrev pub format_i : ℕ → ℕ
format_i inst = inst / 2 ^ 20

abbrev pub format_s : ℕ → ℕ
format_s inst = inst / 2 ^ 25 * 2 ^ 5 + inst / 2 ^ 7 % 2 ^ 5

abbrev pub format_b : ℕ → ℕ
format_b inst =
    inst / 2 ^ 31 * 2 ^ 12
    + inst / 2 ^ 7 % 2 * 2 ^ 11
    + inst / 2 ^ 25 % 2 ^ 6 * 2 ^ 5
    + inst / 2 ^ 8 % 2 ^ 4 * 2

abbrev pub format_j : ℕ → ℕ
format_j inst =
    inst / 2 ^ 31 * 2 ^ 20
    + inst / 2 ^ 12 % 2 ^ 8 * 2 ^ 12
    + inst / 2 ^ 20 % 2 * 2 ^ 11
    + inst / 2 ^ 21 % 2 ^ 10 * 2

extract_imm_i_lem :
    (inst : ℕ) → inst < 2 ^ 32 → extract_imm_i inst ≡ signed_pattern 12 (format_i inst)
unfolding extract_imm_i
extract_imm_i_lem inst h = ground arith

-- The branch immediate before its sign is extended.
raw_b : (inst : ℕ) → ℕ
raw_b inst =
    bit_or
      (bit_or (bit_or (bit_and (inst / 2 ^ 8) 0xF * 2 ^ 1) (bit_and (inst / 2 ^ 25) 0x3F * 2 ^ 5))
        (bit_and (inst / 2 ^ 7) 0x1 * 2 ^ 11))
      (bit_and (inst / 2 ^ 31) 0x1 * 2 ^ 12)

sum_4 :
    (a b c d j k l : ℕ)
    → a < 2 ^ j
    → a + b * 2 ^ j < 2 ^ k
    → a + b * 2 ^ j + c * 2 ^ k < 2 ^ l
    → bit_or (bit_or (bit_or a (b * 2 ^ j)) (c * 2 ^ k)) (d * 2 ^ l)
      ≡ a + b * 2 ^ j + c * 2 ^ k + d * 2 ^ l
sum_4 a b c d j k l h1 h2 h3 =
    ap (λ (t : ℕ). bit_or (bit_or t (c * 2 ^ k)) (d * 2 ^ l)) (bit_or_above j a b h1)
    ∙ ap (λ (t : ℕ). bit_or t (d * 2 ^ l)) (bit_or_above k (a + b * 2 ^ j) c h2)
    ∙ bit_or_above l (a + b * 2 ^ j + c * 2 ^ k) d h3

raw_b_lem : (inst : ℕ) → inst < 2 ^ 32 → raw_b inst ≡ format_b inst
unfolding raw_b
raw_b_lem inst h =
    let a = bit_and-low_mask 4 (inst / 2 ^ 8) in
    let b = bit_and-low_mask 6 (inst / 2 ^ 25) in
    let c = bit_and-low_mask 1 (inst / 2 ^ 7) in
    let d = bit_and-low_mask 1 (inst / 2 ^ 31) in
    sum_4 (bit_and (inst / 2 ^ 8) 0xF * 2 ^ 1) (bit_and (inst / 2 ^ 25) 0x3F)
      (bit_and (inst / 2 ^ 7) 0x1) (bit_and (inst / 2 ^ 31) 0x1) 5 11 12 (omega (arith, a))
      (omega (arith, a, b)) (omega (arith, a, b, c))
    ∙ omega (arith, a, b, c, d)

extended_13 :
    (v : ℕ)
    → v < 2 ^ 13
    → (if bit_and v 0x1000 != 0 then bit_or v 0xFFFFE000 else v) ≡ signed_pattern 13 v
extended_13 v h = ground (arith, bit_and-bit 12 v, bit_or_above 13 v (2 ^ 19 - 1) h)

format_b-lt : (inst : ℕ) → inst < 2 ^ 32 → format_b inst < 2 ^ 13
format_b-lt inst h = omega arith

extract_imm_b_lem :
    (inst : ℕ) → inst < 2 ^ 32 → extract_imm_b inst ≡ signed_pattern 13 (format_b inst)
unfolding extract_imm_b raw_b
extract_imm_b_lem inst h =
    ap (λ (v : ℕ). if bit_and v 0x1000 != 0 then bit_or v 0xFFFFE000 else v) (raw_b_lem inst h)
    ∙ extended_13 (format_b inst) (format_b-lt inst h)

-- The jump immediate before its sign is extended.
raw_j : (inst : ℕ) → ℕ
raw_j inst =
    bit_or
      (bit_or
        (bit_or (bit_and (inst / 2 ^ 21) 0x3FF * 2 ^ 1) (bit_and (inst / 2 ^ 20) 0x1 * 2 ^ 11))
        (bit_and (inst / 2 ^ 12) 0xFF * 2 ^ 12))
      (bit_and (inst / 2 ^ 31) 0x1 * 2 ^ 20)

raw_j_lem : (inst : ℕ) → inst < 2 ^ 32 → raw_j inst ≡ format_j inst
unfolding raw_j
raw_j_lem inst h =
    let a = bit_and-low_mask 10 (inst / 2 ^ 21) in
    let b = bit_and-low_mask 1 (inst / 2 ^ 20) in
    let c = bit_and-low_mask 8 (inst / 2 ^ 12) in
    let d = bit_and-low_mask 1 (inst / 2 ^ 31) in
    sum_4 (bit_and (inst / 2 ^ 21) 0x3FF * 2 ^ 1) (bit_and (inst / 2 ^ 20) 0x1)
      (bit_and (inst / 2 ^ 12) 0xFF) (bit_and (inst / 2 ^ 31) 0x1) 11 12 20 (omega (arith, a))
      (omega (arith, a, b)) (omega (arith, a, b, c))
    ∙ omega (arith, a, b, c, d)

extended_21 :
    (v : ℕ)
    → v < 2 ^ 21
    → (if bit_and v 0x100000 != 0 then bit_or v 0xFFE00000 else v) ≡ signed_pattern 21 v
extended_21 v h = ground (arith, bit_and-bit 20 v, bit_or_above 21 v (2 ^ 11 - 1) h)

format_j-lt : (inst : ℕ) → inst < 2 ^ 32 → format_j inst < 2 ^ 21
format_j-lt inst h = omega arith

extract_imm_j_lem :
    (inst : ℕ) → inst < 2 ^ 32 → extract_imm_j inst ≡ signed_pattern 21 (format_j inst)
unfolding extract_imm_j raw_j
extract_imm_j_lem inst h =
    ap (λ (v : ℕ). if bit_and v 0x100000 != 0 then bit_or v 0xFFE00000 else v) (raw_j_lem inst h)
    ∙ extended_21 (format_j inst) (format_j-lt inst h)

extract_imm_u_lem : (inst : ℕ) → inst < 2 ^ 32 → extract_imm_u inst ≡ inst / 2 ^ 12 * 2 ^ 12
unfolding extract_imm_u
extract_imm_u_lem inst h =
    omega (arith, bit_and-high_mask 12 inst (2 ^ 20 - 1), bit_and-low_mask 20 (inst / 2 ^ 12))

-- The store immediate before its sign is extended: bits 12 to 27 are the sign already.
abbrev half_extended : ℕ → ℕ
half_extended v = if ltb v (2 ^ 11) then v else v + (2 ^ 16 - 1) * 2 ^ 12

raw_s : (inst : ℕ) → ℕ
raw_s inst = bit_or (bit_and (sra32 inst 20) 0xFFFFFE0) (bit_and (inst / 2 ^ 7) 0x1F)

raw_s_high :
    (inst : ℕ)
    → inst < 2 ^ 32
    → bit_and (sra32 inst 20) 0xFFFFFE0 ≡ sra32 inst 20 / 2 ^ 5 % 2 ^ 23 * 2 ^ 5
raw_s_high inst h =
    bit_and-high_mask 5 (sra32 inst 20) (2 ^ 23 - 1)
    ∙ ap (λ (t : ℕ). t * 2 ^ 5) (bit_and-low_mask 23 (sra32 inst 20 / 2 ^ 5))

raw_s_lem : (inst : ℕ) → inst < 2 ^ 32 → raw_s inst ≡ half_extended (format_s inst)
unfolding raw_s
raw_s_lem inst h =
    ap₂ bit_or (raw_s_high inst h) (bit_and-low_mask 5 (inst / 2 ^ 7))
    ∙ bit_or_comm _ _
    ∙ bit_or_above 5 (inst / 2 ^ 7 % 2 ^ 5) (sra32 inst 20 / 2 ^ 5 % 2 ^ 23) (omega arith)
    ∙ ground arith

-- The sign extension of a value whose bits 12 to 27 are the sign already.
fills_sign : (w : ℕ) → w < 2 ^ 12 → bit_or (w + (2 ^ 16 - 1) * 2 ^ 12) 0xFFFFF000 ≡ w + 0xFFFFF000
fills_sign w h =
    ap (λ (t : ℕ). bit_or t 0xFFFFF000) (omega arith)
    ∙ bit_or-high_mask 12 (2 ^ 16 - 1) w (2 ^ 20 - 1) h
    ∙ omega arith

extended_12 :
    (w : ℕ)
    → w < 2 ^ 12
    → (if bit_and (half_extended w) 0x800 != 0
        then bit_or (half_extended w) 0xFFFFF000
        else half_extended w)
      ≡ signed_pattern 12 w
extended_12 w h = ground (arith, bit_and-bit 11 (half_extended w), fills_sign w h)

extract_imm_s_lem :
    (inst : ℕ) → inst < 2 ^ 32 → extract_imm_s inst ≡ signed_pattern 12 (format_s inst)
unfolding extract_imm_s raw_s
extract_imm_s_lem inst h =
    ap (λ (v : ℕ). if bit_and v 0x800 != 0 then bit_or v 0xFFFFF000 else v) (raw_s_lem inst h)
    ∙ extended_12 (format_s inst) (omega arith)

-- The immediates of the five formats are, as 32-bit patterns, the signed numbers that the formats
-- define: 12 bits for the I and S formats, 13 for B and 21 for J with a zero lowest bit, and the upper
-- 20 bits for U.
pub immediates_lem :
    (inst : ℕ)
    → inst < 2 ^ 32
    → (extract_imm_i inst ≡ signed_pattern 12 (format_i inst))
      × (extract_imm_s inst ≡ signed_pattern 12 (format_s inst))
      × (extract_imm_b inst ≡ signed_pattern 13 (format_b inst))
      × (extract_imm_u inst ≡ inst / 2 ^ 12 * 2 ^ 12)
      × (extract_imm_j inst ≡ signed_pattern 21 (format_j inst))
immediates_lem inst h = (
  extract_imm_i_lem inst h,
  extract_imm_s_lem inst h,
  extract_imm_b_lem inst h,
  extract_imm_u_lem inst h,
  extract_imm_j_lem inst h,
)
