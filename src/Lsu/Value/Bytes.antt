-- ===== src/Lsu/Value/Bytes.antt =====
-- What src/lsu.cpp lines 8 to 22 compute: the little-endian bytes at an address, sign-extended.
use boom.Base.{
  ℕ, zero, suc, ◌+◌, ◌-◌, ◌*◌, ◌/◌, ◌%◌, ◌^◌, ◌<◌, ◌≡◌, ap, arith, Bool, true, false, ltb,
  if◌then◌else◌, bit_and, u8, ◌∙◌,
}
use boom.Base.Bits.{bit_and-low_mask, bit_xor_set, bit_xor_clear}
use boom.Lsu.Value.{sign_extend, load_value}

-- The lowest `n` bytes of `x`, the first the least significant.
unfoldable pub little_endian : ℕ → ℕ → ℕ
little_endian zero x = 0
little_endian (suc n) x = x % 256 + 256 * little_endian n (x / 256)

low_1 : (x : ℕ) → x % 2 ^ 8 ≡ little_endian 1 x
unfolding little_endian
low_1 x = omega arith

low_2 : (x : ℕ) → x % 2 ^ 16 ≡ little_endian 2 x
unfolding little_endian
low_2 x = omega arith

low_4 : (x : ℕ) → x % 2 ^ 32 ≡ little_endian 4 x
unfolding little_endian
low_4 x = omega arith

low_8 : (x : ℕ) → x % 2 ^ 64 ≡ little_endian 8 x
unfolding little_endian
low_8 x = omega arith

-- The value of `8 * 2 ^ size` bits as the same signed number in 64 bits.
abbrev pub sign_extended : ℕ → ℕ → ℕ
sign_extended size v = if ltb v (2 ^ (8 * 2 ^ size - 1)) then v else v + 2 ^ 64 - 2 ^ (8 * 2 ^ size)

sign_extend_8 : (x : ℕ) → x < 2 ^ 8 → sign_extend x 8 ≡ sign_extended 0 x
unfolding sign_extend
sign_extend_8 x h = ground (arith, bit_xor_set 7 x, bit_xor_clear 7 (x - 2 ^ 7))

sign_extend_16 : (x : ℕ) → x < 2 ^ 16 → sign_extend x 16 ≡ sign_extended 1 x
unfolding sign_extend
sign_extend_16 x h = ground (arith, bit_xor_set 15 x, bit_xor_clear 15 (x - 2 ^ 15))

sign_extend_32 : (x : ℕ) → x < 2 ^ 32 → sign_extend x 32 ≡ sign_extended 2 x
unfolding sign_extend
sign_extend_32 x h = ground (arith, bit_xor_set 31 x, bit_xor_clear 31 (x - 2 ^ 31))

sign_extend_64 : (x : ℕ) → x < 2 ^ 64 → sign_extend x 64 ≡ sign_extended 3 x
unfolding sign_extend
sign_extend_64 x h = ground arith

shift_bits : (address : ℕ) → u8 (bit_and address 0x7 * 8) ≡ address % 8 * 8
shift_bits address = omega (arith, bit_and-low_mask 3 address)

-- The bytes from the address on, within the doubleword.
abbrev pub bytes_at : ℕ → ℕ → ℕ → ℕ
bytes_at d address size = little_endian (2 ^ size) (d / 2 ^ (address % 8 * 8))

load_unsigned :
    (d address size : ℕ) → size < 4 → load_value d address size false ≡ bytes_at d address size
unfolding load_value
load_unsigned d address zero h = rw (shift_bits address) (bit_and-low_mask 8 _ ∙ low_1 _)
load_unsigned d address (suc zero) h = rw (shift_bits address) (bit_and-low_mask 16 _ ∙ low_2 _)
load_unsigned d address (suc (suc zero)) h =
    rw (shift_bits address) (bit_and-low_mask 32 _ ∙ low_4 _)
load_unsigned d address (suc (suc (suc zero))) h =
    rw (shift_bits address) (bit_and-low_mask 64 _ ∙ low_8 _)
load_unsigned d address (suc (suc (suc (suc n)))) h = absurd (omega arith)

load_signed :
    (d address size : ℕ)
    → size < 4
    → load_value d address size true ≡ sign_extended size (bytes_at d address size)
unfolding load_value
load_signed d address zero h =
    ap (λ v. sign_extend v 8) (load_unsigned d address 0 h)
    ∙ sign_extend_8 (bytes_at d address 0) (omega (arith, low_1 (d / 2 ^ (address % 8 * 8))))
load_signed d address (suc zero) h =
    ap (λ v. sign_extend v 16) (load_unsigned d address 1 h)
    ∙ sign_extend_16 (bytes_at d address 1) (omega (arith, low_2 (d / 2 ^ (address % 8 * 8))))
load_signed d address (suc (suc zero)) h =
    ap (λ v. sign_extend v 32) (load_unsigned d address 2 h)
    ∙ sign_extend_32 (bytes_at d address 2) (omega (arith, low_4 (d / 2 ^ (address % 8 * 8))))
load_signed d address (suc (suc (suc zero))) h =
    ap (λ v. sign_extend v 64) (load_unsigned d address 3 h)
    ∙ sign_extend_64 (bytes_at d address 3) (omega (arith, low_8 (d / 2 ^ (address % 8 * 8))))
load_signed d address (suc (suc (suc (suc n)))) h = absurd (omega arith)

-- For each of the four access sizes, the value of a load is made of the bytes of the doubleword from
-- the address on, the first the least significant, zero past its end; a signed load has the same
-- signed value in 64 bits.
pub load_value_lem :
    (d address size : ℕ) (signed_load : Bool)
    → size < 4
    → load_value d address size signed_load ≡ (
        if signed_load
        then sign_extended size (bytes_at d address size)
        else bytes_at d address size)
load_value_lem d address size true h = load_signed d address size h
load_value_lem d address size false h = load_unsigned d address size h
