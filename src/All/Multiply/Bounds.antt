-- ===== src/All/Multiply/Bounds.antt =====
-- `compute_mul` of src/boom_all.cpp: the unsigned high product against the whole product.
use boom.Base.{ℕ, ◌+◌, ◌-◌, ◌*◌, ◌/◌, ◌%◌, ◌^◌, ◌≤◌, ◌<◌, u64, ◌≡◌, sym, ap, ap₂, ◌∙◌, subst, arith}
use boom.Base.Bits.{bit_and-low_mask}
use native.Mathlib.Nat.{mul-le-mul}
use boom.All.Multiply.{high, low, high_sum, compute_mul}

low-mod : (x : ℕ) → low x ≡ x % 2 ^ 32
low-mod x = bit_and-low_mask 32 x

low-lt : (x : ℕ) → low x < 2 ^ 32
low-lt x = omega (arith, low-mod x)

half_product : (x y : ℕ) → x < 2 ^ 32 → y < 2 ^ 32 → x * y ≤ (2 ^ 32 - 1) * (2 ^ 32 - 1)
half_product x y hx hy =
    let a : x ≤ 2 ^ 32 - 1 = omega arith in let b : y ≤ 2 ^ 32 - 1 = omega arith in mul-le-mul a b

-- The product of two numbers written in halves.
product_halves :
    (a1 a0 b1 b0 : ℕ)
    → (a1 * 2 ^ 32 + a0) * (b1 * 2 ^ 32 + b0)
      ≡ a1 * b1 * 2 ^ 64 + (a1 * b0 + a0 * b1) * 2 ^ 32 + a0 * b0
product_halves a1 a0 b1 b0 = grind arith

-- The carry out of the lower half of the product: what the two middle products and the low one leave
-- below 2 ^ 64 when they are shifted down one by one.
unfoldable pub carry_of : ℕ → ℕ → ℕ → ℕ
carry_of q r s = (q % 2 ^ 32 + r % 2 ^ 32 + s / 2 ^ 32) / 2 ^ 32

high_sum_and_carry :
    (p q r s : ℕ)
    → p ≤ (2 ^ 32 - 1) * (2 ^ 32 - 1)
    → q ≤ (2 ^ 32 - 1) * (2 ^ 32 - 1)
    → r ≤ (2 ^ 32 - 1) * (2 ^ 32 - 1)
    → s ≤ (2 ^ 32 - 1) * (2 ^ 32 - 1)
    → (u64 (p + q / 2 ^ 32 + r / 2 ^ 32) + carry_of q r s
        ≡ (p * 2 ^ 64 + (q + r) * 2 ^ 32 + s) / 2 ^ 64)
      × (carry_of q r s ≤ 2)
unfolding carry_of
high_sum_and_carry p q r s hp hq hr hs = (omega arith, omega arith)

unfoldable pub lost_carry : ℕ → ℕ → ℕ
unfolding carry_of
lost_carry a b = carry_of (high a * low b) (low a * high b) (low a * low b)

-- `v` is the upper half of a product but for a carry of at most 2.
abbrev pub IsShortBy : ℕ → ℕ → ℕ → Type 0
IsShortBy carry v exact = (v + carry ≡ exact) × (carry ≤ 2)

-- For two 64-bit registers, `compute_mul` with code 3 (`mulhu`) gives the upper half of their product
-- less exactly the carry that comes out of the lower half, which is at most 2.
pub mulhu-IsShortBy :
    (a b : ℕ)
    → a < 2 ^ 64
    → b < 2 ^ 64
    → IsShortBy (lost_carry a b) (compute_mul 3 a b) (a * b / 2 ^ 64)
unfolding compute_mul high_sum lost_carry
mulhu-IsShortBy a b ha hb = subst (IsShortBy _ _) (ap (λ (t : ℕ). t / 2 ^ 64) whole) halves
  where
    halves : IsShortBy (lost_carry a b) (high_sum a b) (
        (high a * high b * 2 ^ 64 + (high a * low b + low a * high b) * 2 ^ 32 + low a * low b)
        / 2 ^ 64)
    halves =
        high_sum_and_carry (high a * high b) (high a * low b) (low a * high b) (low a * low b)
          (half_product (high a) (high b) (omega arith) (omega arith))
          (half_product (high a) (low b) (omega arith) (low-lt b))
          (half_product (low a) (high b) (low-lt a) (omega arith))
          (half_product (low a) (low b) (low-lt a) (low-lt b))

    whole :
        high a * high b * 2 ^ 64 + (high a * low b + low a * high b) * 2 ^ 32 + low a * low b
        ≡ a * b
    whole =
        sym (product_halves (high a) (low a) (high b) (low b))
        ∙ ap₂ ◌*◌ (omega (arith, low-mod a)) (omega (arith, low-mod b))
