-- ===== src/Tb/Encode/RoundTrip.antt =====
-- The encoders of the testbenches against the decoder's fields and immediates (src/decode.cpp).
use boom.Base.{ℕ, ◌+◌, ◌*◌, ◌/◌, ◌%◌, ◌^◌, ◌<◌, ◌≡◌, ap, ◌∙◌, arith}
use boom.Base.Bits.{bit_and-low_mask}
use boom.Decode.Fields.{
  opcode, rd, f3, f7, lrs1, lrs2, extract_imm_i, extract_imm_s, extract_imm_b, extract_imm_j,
}
use boom.Decode.Immediates.{signed_pattern, format_i, format_s, format_b, format_j, immediates_lem}
use boom.Tb.Encode.{make_itype, make_rtype, make_jtype, make_stype, make_btype}
use boom.Tb.Encode.Fields.{
  word_of, make_itype-sum, make_rtype-sum, make_stype-sum, make_btype-sum, make_jtype-sum,
}

opcode-mod : (w : ℕ) → opcode w ≡ w % 2 ^ 7
unfolding opcode
opcode-mod w = bit_and-low_mask 7 w

rd-mod : (w : ℕ) → rd w ≡ w / 2 ^ 7 % 2 ^ 5
unfolding rd
rd-mod w = bit_and-low_mask 5 (w / 2 ^ 7)

f3-mod : (w : ℕ) → f3 w ≡ w / 2 ^ 12 % 2 ^ 3
unfolding f3
f3-mod w = bit_and-low_mask 3 (w / 2 ^ 12)

lrs1-mod : (w : ℕ) → lrs1 w ≡ w / 2 ^ 15 % 2 ^ 5
unfolding lrs1
lrs1-mod w = bit_and-low_mask 5 (w / 2 ^ 15)

lrs2-mod : (w : ℕ) → lrs2 w ≡ w / 2 ^ 20 % 2 ^ 5
unfolding lrs2
lrs2-mod w = bit_and-low_mask 5 (w / 2 ^ 20)

f7-mod : (w : ℕ) → f7 w ≡ w / 2 ^ 25 % 2 ^ 7
unfolding f7
f7-mod w = bit_and-low_mask 7 (w / 2 ^ 25)

-- The fields of a word in the order of the encoders' arguments.
pub record Fields (w f r2 r1 fun r op : ℕ) : Type 0 where
  pub funct7_is : f7 w ≡ f
  pub rs2_is : lrs2 w ≡ r2
  pub rs1_is : lrs1 w ≡ r1
  pub funct3_is : f3 w ≡ fun
  pub rd_is : rd w ≡ r
  pub opcode_is : opcode w ≡ op

word_of-Fields :
    (w f r2 r1 fun r op : ℕ)
    → f < 128
    → r2 < 32
    → r1 < 32
    → fun < 8
    → r < 32
    → op < 128
    → w ≡ word_of (f * 2 ^ 5 + r2) r1 fun r op
    → Fields w f r2 r1 fun r op
word_of-Fields w f r2 r1 fun r op hf h2 h1 h3 hr ho e = record {
  funct7_is = omega (arith, f7-mod w);
  rs2_is = omega (arith, lrs2-mod w);
  rs1_is = omega (arith, lrs1-mod w);
  funct3_is = omega (arith, f3-mod w);
  rd_is = omega (arith, rd-mod w);
  opcode_is = omega (arith, opcode-mod w);
}

module _ (imm f r2 r1 fun r op : ℕ) (hf : f < 128) (h2 : r2 < 32) (h1 : r1 < 32) (h3 : fun < 8)
    (hr : r < 32) (ho : op < 128) where
  itype_decodes :
      Fields (make_itype imm r1 fun r op) (imm / 2 ^ 5 % 2 ^ 7) (imm % 2 ^ 5) r1 fun r op
      × (extract_imm_i (make_itype imm r1 fun r op) ≡ signed_pattern 12 (imm % 2 ^ 12))
  itype_decodes =
      let e = make_itype-sum r1 fun r op h1 h3 hr ho imm in
      let i : format_i (make_itype imm r1 fun r op) ≡ imm % 2 ^ 12 = omega (arith, e) in
      let imms = immediates_lem (make_itype imm r1 fun r op) (omega (arith, e)) in
      (
        word_of-Fields _ _ _ _ _ _ _ (omega arith) (omega arith) h1 h3 hr ho (omega (arith, e)),
        imms.0 ∙ ap (signed_pattern 12) i,
      )

  stype_decodes :
      Fields (make_stype imm r2 r1 fun) (imm / 2 ^ 5 % 2 ^ 7) r2 r1 fun (imm % 2 ^ 5) 0x23
      × (extract_imm_s (make_stype imm r2 r1 fun) ≡ signed_pattern 12 (imm % 2 ^ 12))
  stype_decodes =
      let e = make_stype-sum imm r2 r1 fun h2 h1 h3 in
      let i : format_s (make_stype imm r2 r1 fun) ≡ imm % 2 ^ 12 = omega (arith, e) in
      let imms = immediates_lem (make_stype imm r2 r1 fun) (omega (arith, e)) in
      (
        word_of-Fields _ _ _ _ _ _ _ (omega arith) h2 h1 h3 (omega arith) (omega arith) e,
        imms.1 ∙ ap (signed_pattern 12) i,
      )

  btype_decodes :
      Fields
        (make_btype imm r2 r1 fun)
        (imm / 2 ^ 12 % 2 * 2 ^ 6 + imm / 2 ^ 5 % 2 ^ 6)
        r2
        r1
        fun
        (imm / 2 % 2 ^ 4 * 2 + imm / 2 ^ 11 % 2)
        0x63
      × (extract_imm_b (make_btype imm r2 r1 fun) ≡ signed_pattern 13 (imm / 2 % 2 ^ 12 * 2))
  btype_decodes =
      let e = make_btype-sum imm r2 r1 fun h2 h1 h3 in
      let i : format_b (make_btype imm r2 r1 fun) ≡ imm / 2 % 2 ^ 12 * 2 = omega (arith, e) in
      let imms = immediates_lem (make_btype imm r2 r1 fun) (omega (arith, e)) in
      (
        word_of-Fields _ _ _ _ _ _ _ (omega arith) h2 h1 h3 (omega arith) (omega arith)
            (omega (arith, e)),
        imms.2 ∙ ap (signed_pattern 13) i,
      )

  jtype_decodes :
      (opcode (make_jtype imm r op) ≡ op)
      × (rd (make_jtype imm r op) ≡ r)
      × (extract_imm_j (make_jtype imm r op) ≡ signed_pattern 21 (imm / 2 % 2 ^ 20 * 2))
  jtype_decodes =
      let e = make_jtype-sum imm r op hr ho in
      let i : format_j (make_jtype imm r op) ≡ imm / 2 % 2 ^ 20 * 2 = omega (arith, e) in
      let imms = immediates_lem (make_jtype imm r op) (omega (arith, e)) in
      (
        omega (arith, e, opcode-mod (make_jtype imm r op)),
        omega (arith, e, rd-mod (make_jtype imm r op)),
        imms.4 ∙ ap (signed_pattern 21) i,
      )

  -- The decoder finds in an encoded word the fields that were encoded, and as its immediate the signed
  -- number of the lowest bits that the format keeps: 12 of a load or another operation with an immediate
  -- and of a store, 13 of a branch and 21 of a jump, the lowest of them 0.
  pub encoders_lem :
      Fields (make_rtype f r2 r1 fun r op) f r2 r1 fun r op
      × (Fields (make_itype imm r1 fun r op) (imm / 2 ^ 5 % 2 ^ 7) (imm % 2 ^ 5) r1 fun r op
          × (extract_imm_i (make_itype imm r1 fun r op) ≡ signed_pattern 12 (imm % 2 ^ 12)))
      × (Fields (make_stype imm r2 r1 fun) (imm / 2 ^ 5 % 2 ^ 7) r2 r1 fun (imm % 2 ^ 5) 0x23
          × (extract_imm_s (make_stype imm r2 r1 fun) ≡ signed_pattern 12 (imm % 2 ^ 12)))
      × (Fields
            (make_btype imm r2 r1 fun)
            (imm / 2 ^ 12 % 2 * 2 ^ 6 + imm / 2 ^ 5 % 2 ^ 6)
            r2
            r1
            fun
            (imm / 2 % 2 ^ 4 * 2 + imm / 2 ^ 11 % 2)
            0x63
          × (extract_imm_b (make_btype imm r2 r1 fun) ≡ signed_pattern 13 (imm / 2 % 2 ^ 12 * 2)))
      × ((opcode (make_jtype imm r op) ≡ op)
          × (rd (make_jtype imm r op) ≡ r)
          × (extract_imm_j (make_jtype imm r op) ≡ signed_pattern 21 (imm / 2 % 2 ^ 20 * 2)))
  encoders_lem = (
    word_of-Fields _ _ _ _ _ _ _ hf h2 h1 h3 hr ho
        (make_rtype-sum r1 fun r op h1 h3 hr ho f r2 hf h2),
    itype_decodes,
    stype_decodes,
    btype_decodes,
    jtype_decodes,
  )
