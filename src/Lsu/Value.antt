-- ===== src/Lsu/Value.antt =====
-- src/lsu.cpp, lines 8 to 22: the value of a load from the doubleword that memory returns.
pub mod Bytes
use boom.Base.{
  ℕ, ◌+◌, ◌-◌, ◌*◌, ◌^◌, ◌<<<◌, ◌>>>◌, bit_and, bit_xor, u8, u64, Bool, leb, if◌then◌else◌,
}

pub bytes_for_size : ℕ → ℕ
bytes_for_size size = u8 (1 <<< bit_and size 0x3)

pub sign_extend : ℕ → ℕ → ℕ
sign_extend value bits =
    if leb 64 bits
    then value
    else let mask = 1 <<< (bits - 1) in u64 (bit_xor value mask + 2 ^ 64 - mask)

abbrev pub bit_mask : ℕ → ℕ
bit_mask bits = if leb 64 bits then 2 ^ 64 - 1 else (1 <<< bits) - 1

pub load_value : ℕ → ℕ → ℕ → Bool → ℕ
unfolding bytes_for_size
load_value d address size signed_load =
    let shift = u8 (bit_and address 0x7 * 8) in
    let bits = u8 (bytes_for_size size * 8) in
    let value = bit_and (d >>> shift) (bit_mask bits) in
    if signed_load then sign_extend value bits else value
