-- ===== src/All/Multiply.antt =====
-- `sext`, `compute_alu` and `compute_mul` of src/boom_all.cpp. A 64-bit value is its pattern.
pub mod Bounds
use boom.Base.{
  ℕ, ◌+◌, ◌-◌, ◌*◌, ◌^◌, ◌<<<◌, ◌>>>◌, u64, sra64, ltb_signed, bit_and, bit_or, bit_xor, Bool, true,
  not, ◌==◌, ◌!=◌, ltb, leb, if◌then◌else◌,
}
use boom.Execute.{bool_bit}

abbrev pub ones : ℕ
ones = 2 ^ 64 - 1

-- `~x` and `-x` of a `uint64_t`.
abbrev pub invert : ℕ → ℕ
invert x = ones - x

abbrev pub negate : ℕ → ℕ
negate x = u64 (2 ^ 64 - x)

abbrev pub is_negative : ℕ → Bool
is_negative x = leb (2 ^ 63) x

pub sext : ℕ → ℕ → ℕ
sext val bits =
    if leb 64 bits
    then val
    else if bit_and val (1 <<< (bits - 1)) != 0
    then bit_or val (invert ((1 <<< bits) - 1))
    else bit_and val ((1 <<< bits) - 1)

pub compute_alu : ℕ → ℕ → ℕ → ℕ
compute_alu op_fcn op1 op2 =
    if op_fcn == 0
    then u64 (op1 + op2)
    else if op_fcn == 1
    then u64 (op1 <<< bit_and op2 0x3F)
    else if op_fcn == 2
    then bool_bit (ltb_signed op1 op2)
    else if op_fcn == 3
    then bool_bit (ltb op1 op2)
    else if op_fcn == 4
    then bit_xor op1 op2
    else if op_fcn == 5
    then u64 (op2 + 2 ^ 64 - op1)
    else if op_fcn == 6
    then op1 >>> bit_and op2 0x3F
    else if op_fcn == 7
    then sra64 op1 (bit_and op2 0x3F)
    else if op_fcn == 8
    then bit_or op1 op2
    else if op_fcn == 9
    then bit_and op1 op2
    else 0

-- `x >> 32` and `x & 0xFFFFFFFF`.
abbrev pub high : ℕ → ℕ
high x = x >>> 32

abbrev pub low : ℕ → ℕ
low x = bit_and x 0xFFFFFFFF

-- The sum that the three high products share.
unfoldable pub high_sum : ℕ → ℕ → ℕ
high_sum a b = u64 (high a * high b + ((high a * low b) >>> 32) + ((low a * high b) >>> 32))

abbrev pub magnitude : ℕ → ℕ
magnitude x = if is_negative x then negate x else x

-- `neg ? ~hi + (a_lo * b_lo == 0 ? 0 : 1) : hi`
abbrev pub signed_high : Bool → ℕ → ℕ → ℕ
signed_high neg a b =
    if neg
    then u64 (invert (high_sum a b) + (if low a * low b == 0 then 0 else 1))
    else high_sum a b

unfoldable pub compute_mul : ℕ → ℕ → ℕ → ℕ
compute_mul op_fcn op1 op2 =
    if op_fcn == 0
    then u64 (op1 * op2)
    else if op_fcn == 1
    then signed_high (if is_negative op1 then not (is_negative op2) else is_negative op2)
        (magnitude op1) (magnitude op2)
    else if op_fcn == 2
    then signed_high (is_negative op1) (magnitude op1) op2
    else if op_fcn == 3
    then high_sum op1 op2
    else 0
