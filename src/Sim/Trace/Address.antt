-- ===== src/Sim/Trace/Address.antt =====
-- The address that `detect_tohost_store` of reference/verilator_trace/standalone_boom_trace.cpp computes,
-- beside the store immediate of src/decode.cpp.
use boom.Base.{
  ◌!=◌, ◌==◌, ◌&&◌, false, true, Bool, ℕ, ◌+◌, ◌-◌, ◌/◌, ◌^◌, ◌<◌, ◌<<<◌, ◌>>>◌, bit_and, bit_xor,
  u32, u64, sext_32_64, ltb, if◌then◌else◌, List, get_or, ◌≡◌, sym, ap, ◌∙◌, arith, Bool-cases, inl,
  inr, if_true, if_false,
}
use boom.Base.Bits.{bit_and-low_mask, bit_or_above, bit_xor_set, bit_xor_clear}
use boom.Decode.Fields.{extract_imm_s}
use boom.Decode.Immediates.{signed_pattern, format_s, immediates_lem}
use boom.Sim.Trace.{sign_extend, store_offset, is_sd, sd_address, sd_value, detect_tohost_store}

sign_extend_12 : (v : ℕ) → v < 2 ^ 12 → sign_extend v 12 ≡ signed_pattern 12 v
unfolding sign_extend
sign_extend_12 v h = elim (Bool-cases (ltb v (2 ^ 11))) [
  | inl e ↦
      let low : v < 2 ^ 11 = ground arith in
      omega (arith, bit_xor_set 11 v low) ∙ sym (if_true _ _ e)
  | inr e ↦
      let w : v - 2 ^ 11 < 2 ^ 11 = ground arith in
      let same : v - 2 ^ 11 + 2 ^ 11 ≡ v = ground arith in
      ap (λ (x : ℕ). u32 (bit_xor x (1 <<< 11) + 2 ^ 32 - (1 <<< 11))) (sym same)
      ∙ ap (λ (x : ℕ). u32 (x + 2 ^ 32 - (1 <<< 11))) (bit_xor_clear 11 (v - 2 ^ 11) w)
      ∙ omega (arith, same)
      ∙ sym (if_false _ _ e)
]

store_offset_lem : (inst : ℕ) → inst < 2 ^ 32 → store_offset inst ≡ format_s inst
unfolding store_offset
store_offset_lem inst h =
    let a = bit_and-low_mask 5 (inst / 2 ^ 7) in
    let b = bit_and-low_mask 7 (inst / 2 ^ 25) in
    bit_or_above 5 (bit_and (inst / 2 ^ 7) 0x1F) (bit_and (inst / 2 ^ 25) 0x7F) (omega (arith, a))
    ∙ omega (arith, a, b)

offset_lem : (inst : ℕ) → inst < 2 ^ 32 → sign_extend (store_offset inst) 12 ≡ extract_imm_s inst
offset_lem inst h =
    ap (λ (v : ℕ). sign_extend v 12) (store_offset_lem inst h)
    ∙ sign_extend_12 (format_s inst) (omega arith)
    ∙ sym (immediates_lem inst h).1

-- The base register of a store.
abbrev pub base_of : List ℕ → ℕ → ℕ
base_of regs inst = get_or regs (bit_and (inst >>> 15) 0x1F) 0

-- The address of the store in the instruction set: the immediate is extended to 64 bits.
abbrev pub store_address : List ℕ → ℕ → ℕ
store_address regs inst = u64 (base_of regs inst + sext_32_64 (extract_imm_s inst))

too_high :
    (b i : ℕ)
    → i < 2 ^ 32
    → u64 (b + i) ≡ u64 (u64 (b + sext_32_64 i) + (if ltb i (2 ^ 31) then 0 else 2 ^ 32))
too_high b i h = ground arith

extract_imm_s-lt : (inst : ℕ) → inst < 2 ^ 32 → extract_imm_s inst < 2 ^ 32
extract_imm_s-lt inst h = ground (arith, (immediates_lem inst h).1)

sd_address_lem :
    (regs : List ℕ) (inst : ℕ)
    → inst < 2 ^ 32
    → sd_address regs inst
      ≡ u64 (store_address regs inst + (if ltb (extract_imm_s inst) (2 ^ 31) then 0 else 2 ^ 32))
unfolding sd_address
sd_address_lem regs inst h =
    ap (λ (i : ℕ). u64 (base_of regs inst + i)) (offset_lem inst h)
    ∙ too_high (base_of regs inst) (extract_imm_s inst) (extract_imm_s-lt inst h)

same_address : (a : ℕ) (b : Bool) → a < 2 ^ 64 → (u64 (a + (if b then 0 else 2 ^ 32)) == a) ≡ b
same_address a true h = ground arith
same_address a false h = ground arith

-- The address that the driver computes for an `sd` is that of the store where its immediate is not
-- negative, and 2 ^ 32 too high where it is. So it sees an `sd` to the very address of `tohost` exactly if
-- the immediate is not negative and the value is not 0.
pub detect_tohost_store-sees :
    (regs : List ℕ) (inst : ℕ)
    → inst < 2 ^ 32
    → (sd_address regs inst
        ≡ u64 (store_address regs inst + (if ltb (extract_imm_s inst) (2 ^ 31) then 0 else 2 ^ 32)))
      × (detect_tohost_store (store_address regs inst) regs inst
          ≡ (is_sd inst && (ltb (extract_imm_s inst) (2 ^ 31) && sd_value regs inst != 0)))
unfolding detect_tohost_store
detect_tohost_store-sees regs inst h = (
  sd_address_lem regs inst h,
  ap (λ b. is_sd inst && (b && sd_value regs inst != 0))
      (ap (λ (a : ℕ). a == store_address regs inst) (sd_address_lem regs inst h)
        ∙ same_address (store_address regs inst) (ltb (extract_imm_s inst) (2 ^ 31)) (omega arith)),
)
