-- ===== src/Tb/Encode/Fields.antt =====
-- The instruction words that the encoders of the testbenches put together, as sums of their fields.
use boom.Base.{
  ℕ, ◌+◌, ◌*◌, ◌/◌, ◌%◌, ◌^◌, ◌<◌, ◌<<<◌, ◌>>>◌, bit_and, bit_or, u32, ◌≡◌, refl, sym, ap, ap₂, ◌∙◌,
  arith,
}
use boom.Base.Bits.{bit_and-low_mask, bit_or-high_mask, bit_or_above, bit_or_comm}
use boom.Tb.Encode.{make_itype, make_rtype, make_jtype, make_stype, make_btype}

-- `|` with a field of `w` bits at bit `k`, where the other operand has none, is the sum.
bit_or_field :
    (k w x l m : ℕ)
    → l < 2 ^ k
    → m < 2 ^ w
    → bit_or (x * 2 ^ w * 2 ^ k + l) (m * 2 ^ k) ≡ x * 2 ^ w * 2 ^ k + l + m * 2 ^ k
bit_or_field k w x l m hl hm =
    bit_or-high_mask k (x * 2 ^ w) l m hl
    ∙ ap (λ (t : ℕ). t * 2 ^ k + l) (bit_or_comm (x * 2 ^ w) m ∙ bit_or_above w m x hm)
    ∙ grind arith

-- The same where the two operands are known to be of this form.
add_field :
    (k w x l m : ℕ) {a b : ℕ}
    → l < 2 ^ k
    → m < 2 ^ w
    → a ≡ x * 2 ^ w * 2 ^ k + l
    → b ≡ m * 2 ^ k
    → bit_or a b ≡ a + b
add_field k w x l m hl hm ea eb =
    ap₂ bit_or ea eb ∙ bit_or_field k w x l m hl hm ∙ sym (ap₂ ◌+◌ ea eb)

-- The fields below the upper twelve bits, which four formats share.
low_fields :
    (h rs1 f3 rd opc : ℕ)
    → rs1 < 32
    → f3 < 8
    → rd < 32
    → opc < 128
    → bit_or (bit_or (bit_or (bit_or (h * 2 ^ 20) (rs1 * 2 ^ 15)) (f3 * 2 ^ 12)) (rd * 2 ^ 7)) opc
      ≡ h * 2 ^ 20 + rs1 * 2 ^ 15 + f3 * 2 ^ 12 + rd * 2 ^ 7 + opc
low_fields h rs1 f3 rd opc h1 h3 hd ho =
    let e1 = add_field 15 5 h 0 rs1 (omega arith) h1 (omega arith) refl in
    let e2 =
      ap (λ t. bit_or t (f3 * 2 ^ 12)) e1
      ∙ add_field 12 3 (h * 2 ^ 5 + rs1) 0 f3 (omega arith) h3 (omega arith) refl in
    let e3 =
      ap (λ t. bit_or t (rd * 2 ^ 7)) e2
      ∙ add_field 7 5 (h * 2 ^ 8 + rs1 * 2 ^ 3 + f3) 0 rd (omega arith) hd (omega arith) refl in
    ap (λ t. bit_or t opc) e3
    ∙ add_field 0 7 (h * 2 ^ 13 + rs1 * 2 ^ 8 + f3 * 2 ^ 5 + rd) 0 opc (omega arith) ho
        (omega arith) (omega arith)

-- A word from its upper twelve bits and the fields below.
abbrev pub word_of : ℕ → ℕ → ℕ → ℕ → ℕ → ℕ
word_of h rs1 f3 rd opc = h * 2 ^ 20 + rs1 * 2 ^ 15 + f3 * 2 ^ 12 + rd * 2 ^ 7 + opc

module _ (rs1 f3 rd opc : ℕ) (h1 : rs1 < 32) (h3 : f3 < 8) (hd : rd < 32) (ho : opc < 128) where
  pub make_itype-sum :
      (imm : ℕ) → make_itype imm rs1 f3 rd opc ≡ word_of (imm % 2 ^ 12) rs1 f3 rd opc
  unfolding make_itype
  make_itype-sum imm =
      let i : bit_and imm 0xFFF <<< 20 ≡ imm % 2 ^ 12 * 2 ^ 20 =
        omega (arith, bit_and-low_mask 12 imm) in
      ap (λ t. bit_or (bit_or (bit_or (bit_or t (rs1 * 2 ^ 15)) (f3 * 2 ^ 12)) (rd * 2 ^ 7)) opc) i
      ∙ low_fields (imm % 2 ^ 12) rs1 f3 rd opc h1 h3 hd ho

  pub make_rtype-sum :
      (f7 rs2 : ℕ)
      → f7 < 128
      → rs2 < 32
      → make_rtype f7 rs2 rs1 f3 rd opc ≡ word_of (f7 * 2 ^ 5 + rs2) rs1 f3 rd opc
  unfolding make_rtype
  make_rtype-sum f7 rs2 h7 h2 =
      let i : bit_or (f7 * 2 ^ 25) (rs2 * 2 ^ 20) ≡ (f7 * 2 ^ 5 + rs2) * 2 ^ 20 =
        add_field 20 5 f7 0 rs2 (omega arith) h2 (omega arith) refl ∙ omega arith in
      ap (λ t. bit_or (bit_or (bit_or (bit_or t (rs1 * 2 ^ 15)) (f3 * 2 ^ 12)) (rd * 2 ^ 7)) opc) i
      ∙ low_fields (f7 * 2 ^ 5 + rs2) rs1 f3 rd opc h1 h3 hd ho

pub make_stype-sum :
    (imm rs2 rs1 f3 : ℕ)
    → rs2 < 32
    → rs1 < 32
    → f3 < 8
    → make_stype imm rs2 rs1 f3
      ≡ word_of (imm / 2 ^ 5 % 2 ^ 7 * 2 ^ 5 + rs2) rs1 f3 (imm % 2 ^ 5) 0x23
unfolding make_stype make_rtype
make_stype-sum imm rs2 rs1 f3 h2 h1 h3 =
    let high : u32 ((imm >>> 5) <<< 25) ≡ imm / 2 ^ 5 % 2 ^ 7 * 2 ^ 25 = omega arith in
    ap₂
      (λ t u.
        bit_or (bit_or (bit_or (bit_or (bit_or t (rs2 <<< 20)) (rs1 <<< 15)) (f3 <<< 12)) (u <<< 7))
          0x23)
      high (bit_and-low_mask 5 imm)
    ∙ make_rtype-sum rs1 f3 (imm % 2 ^ 5) 0x23 h1 h3 (omega arith) (omega arith)
        (imm / 2 ^ 5 % 2 ^ 7) rs2 (omega arith) h2

jump_fields :
    (s t b u rd opc : ℕ)
    → t < 1024
    → b < 2
    → u < 256
    → rd < 32
    → opc < 128
    → bit_or
        (bit_or
          (bit_or (bit_or (bit_or (s * 2 ^ 31) (t * 2 ^ 21)) (b * 2 ^ 20)) (u * 2 ^ 12))
          (rd * 2 ^ 7))
        opc
      ≡ s * 2 ^ 31 + t * 2 ^ 21 + b * 2 ^ 20 + u * 2 ^ 12 + rd * 2 ^ 7 + opc
jump_fields s t b u rd opc ht hb hu hd ho =
    let e1 = add_field 21 10 s 0 t (omega arith) ht (omega arith) refl in
    let e2 =
      ap (λ v. bit_or v (b * 2 ^ 20)) e1
      ∙ add_field 20 1 (s * 2 ^ 10 + t) 0 b (omega arith) hb (omega arith) refl in
    let e3 =
      ap (λ v. bit_or v (u * 2 ^ 12)) e2
      ∙ add_field 12 8 (s * 2 ^ 11 + t * 2 + b) 0 u (omega arith) hu (omega arith) refl in
    let e4 =
      ap (λ v. bit_or v (rd * 2 ^ 7)) e3
      ∙ add_field 7 5 (s * 2 ^ 19 + t * 2 ^ 9 + b * 2 ^ 8 + u) 0 rd (omega arith) hd (omega arith)
          refl in
    ap (λ v. bit_or v opc) e4
    ∙ add_field 0 7 (s * 2 ^ 24 + t * 2 ^ 14 + b * 2 ^ 13 + u * 2 ^ 5 + rd) 0 opc (omega arith) ho
        (omega arith) (omega arith)

-- The upper part comes first here, then the two lowest fields, then those between.
branch_fields :
    (s m l b rs2 rs1 f3 : ℕ)
    → m < 64
    → l < 16
    → b < 2
    → rs2 < 32
    → rs1 < 32
    → f3 < 8
    → bit_or
        (bit_or
          (bit_or
            (bit_or
              (bit_or (bit_or (bit_or (s * 2 ^ 31) (m * 2 ^ 25)) (l * 2 ^ 8)) (b * 2 ^ 7))
              (rs2 * 2 ^ 20))
            (rs1 * 2 ^ 15))
          (f3 * 2 ^ 12))
        0x63
      ≡ s * 2 ^ 31
        + m * 2 ^ 25
        + l * 2 ^ 8
        + b * 2 ^ 7
        + rs2 * 2 ^ 20
        + rs1 * 2 ^ 15
        + f3 * 2 ^ 12
        + 0x63
branch_fields s m l b rs2 rs1 f3 hm hl hb h2 h1 h3 =
    let low = l * 2 ^ 8 + b * 2 ^ 7 in
    let e1 = add_field 25 6 s 0 m (omega arith) hm (omega arith) refl in
    let e2 =
      ap (λ v. bit_or v (l * 2 ^ 8)) e1
      ∙ add_field 8 4 (s * 2 ^ 19 + m * 2 ^ 13) 0 l (omega arith) hl (omega arith) refl in
    let e3 =
      ap (λ v. bit_or v (b * 2 ^ 7)) e2
      ∙ add_field 7 1 (s * 2 ^ 23 + m * 2 ^ 17 + l) 0 b (omega arith) hb (omega arith) refl in
    let e4 =
      ap (λ v. bit_or v (rs2 * 2 ^ 20)) e3
      ∙ add_field 20 5 (s * 2 ^ 6 + m) low rs2 (omega arith) h2 (omega arith) refl in
    let e5 =
      ap (λ v. bit_or v (rs1 * 2 ^ 15)) e4
      ∙ add_field 15 5 (s * 2 ^ 11 + m * 2 ^ 5 + rs2) low rs1 (omega arith) h1 (omega arith) refl in
    let e6 =
      ap (λ v. bit_or v (f3 * 2 ^ 12)) e5
      ∙ add_field 12 3 (s * 2 ^ 16 + m * 2 ^ 10 + rs2 * 2 ^ 5 + rs1) low f3 (omega arith) h3
          (omega arith) refl in
    ap (λ v. bit_or v 0x63) e6
    ∙ add_field 0 7 (s * 2 ^ 24 + m * 2 ^ 18 + l * 2 + b + rs2 * 2 ^ 13 + rs1 * 2 ^ 8 + f3 * 2 ^ 5)
        0 0x63 (omega arith) (omega arith) (omega arith) refl

pub make_jtype-sum :
    (imm rd opc : ℕ)
    → rd < 32
    → opc < 128
    → make_jtype imm rd opc
      ≡ imm / 2 ^ 20 % 2 * 2 ^ 31
        + imm / 2 % 2 ^ 10 * 2 ^ 21
        + imm / 2 ^ 11 % 2 * 2 ^ 20
        + imm / 2 ^ 12 % 2 ^ 8 * 2 ^ 12
        + rd * 2 ^ 7
        + opc
unfolding make_jtype
make_jtype-sum imm rd opc hd ho =
    rw
      (
        bit_and-low_mask 1 (imm / 2 ^ 20),
        bit_and-low_mask 10 (imm / 2 ^ 1),
        bit_and-low_mask 1 (imm / 2 ^ 11),
        bit_and-low_mask 8 (imm / 2 ^ 12),
      )
      (jump_fields (imm / 2 ^ 20 % 2) (imm / 2 % 2 ^ 10) (imm / 2 ^ 11 % 2) (imm / 2 ^ 12 % 2 ^ 8)
        rd opc (omega arith) (omega arith) (omega arith) hd ho)

pub make_btype-sum :
    (imm rs2 rs1 f3 : ℕ)
    → rs2 < 32
    → rs1 < 32
    → f3 < 8
    → make_btype imm rs2 rs1 f3
      ≡ imm / 2 ^ 12 % 2 * 2 ^ 31
        + imm / 2 ^ 5 % 2 ^ 6 * 2 ^ 25
        + imm / 2 % 2 ^ 4 * 2 ^ 8
        + imm / 2 ^ 11 % 2 * 2 ^ 7
        + rs2 * 2 ^ 20
        + rs1 * 2 ^ 15
        + f3 * 2 ^ 12
        + 0x63
unfolding make_btype
make_btype-sum imm rs2 rs1 f3 h2 h1 h3 =
    rw
      (
        bit_and-low_mask 1 (imm / 2 ^ 12),
        bit_and-low_mask 6 (imm / 2 ^ 5),
        bit_and-low_mask 4 (imm / 2 ^ 1),
        bit_and-low_mask 1 (imm / 2 ^ 11),
      )
      (branch_fields (imm / 2 ^ 12 % 2) (imm / 2 ^ 5 % 2 ^ 6) (imm / 2 % 2 ^ 4) (imm / 2 ^ 11 % 2)
        rs2 rs1 f3 (omega arith) (omega arith) (omega arith) h2 h1 h3)
