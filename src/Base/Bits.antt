-- ===== src/Base/Bits.antt =====
-- The bit operations at variables: their lowest digit, low masks, and fields that do not meet.
use Prim.Native.Nat.{
  ℕ, zero, suc, ◌+◌, ◌-◌, ◌*◌, ◌/◌, ◌%◌, ◌^◌, ◌≤◌, ◌<◌, min, max, digits, bitwise, differ, bit_and,
  bit_or, bit_xor, bit_and-bitwise, bit_or-bitwise, bit_xor-bitwise,
}
use mathlib.Core.Path.{◌≡◌, refl, sym, ap, ap₂, ◌∙◌}
use native.Mathlib.Nat.{pow-suc, one-le-pow, mul_comm, div-div-eq-div-mul}
use native.Mathlib.Omega.{arith}

-- Any two amounts of fuel from the first operand on give the same digits.
enough_digits :
    (z : ℕ → ℕ) (op : ℕ → ℕ → ℕ) (k l x y : ℕ)
    → x ≤ k
    → x ≤ l
    → digits z op k x y ≡ digits z op l x y
enough_digits z op zero zero x y hk hl = refl
enough_digits z op zero (suc l) zero y hk hl = refl
enough_digits z op (suc k) zero zero y hk hl = refl
enough_digits z op (suc k) (suc l) zero y hk hl = refl
enough_digits z op zero (suc l) (suc x) y hk hl = absurd (omega arith)
enough_digits z op (suc k) zero (suc x) y hk hl = absurd (omega arith)
enough_digits z op (suc k) (suc l) (suc x) y hk hl =
    ap (λ (t : ℕ). t * 2 + op (suc x % 2) (y % 2))
      (enough_digits z op k l (suc x / 2) (y / 2) (omega arith) (omega arith))

lowest_digit :
    (z : ℕ → ℕ) (op : ℕ → ℕ → ℕ) (x y : ℕ)
    → bitwise z op (suc x) y ≡ bitwise z op (suc x / 2) (y / 2) * 2 + op (suc x % 2) (y % 2)
lowest_digit z op x y =
    ap (λ (t : ℕ). t * 2 + op (suc x % 2) (y % 2))
      (enough_digits z op x (suc x / 2) (suc x / 2) (y / 2) (omega arith) (omega arith))

pub bit_and_digit : (x y : ℕ) → bit_and x y ≡ bit_and (x / 2) (y / 2) * 2 + min (x % 2) (y % 2)
bit_and_digit zero y = simp bit_and-bitwise (omega arith)
bit_and_digit (suc x) y = simp bit_and-bitwise (lowest_digit (λ t. 0) min x y)

pub bit_or_digit : (x y : ℕ) → bit_or x y ≡ bit_or (x / 2) (y / 2) * 2 + max (x % 2) (y % 2)
bit_or_digit zero y = simp bit_or-bitwise (omega arith)
bit_or_digit (suc x) y = simp bit_or-bitwise (lowest_digit (λ t. t) max x y)

digit_differ : (x y : ℕ) → x < 2 → y < 2 → differ x y ≡ (x + y) % 2
digit_differ zero y hx hy = omega arith
digit_differ (suc zero) zero hx hy = omega arith
digit_differ (suc zero) (suc zero) hx hy = omega arith
digit_differ (suc zero) (suc (suc y)) hx hy = absurd (omega arith)
digit_differ (suc (suc x)) y hx hy = absurd (omega arith)

bit_xor-differ : (x y : ℕ) → bit_xor x y ≡ bit_xor (x / 2) (y / 2) * 2 + differ (x % 2) (y % 2)
bit_xor-differ zero y = simp bit_xor-bitwise (omega arith)
bit_xor-differ (suc x) y = simp bit_xor-bitwise (lowest_digit (λ t. t) differ x y)

pub bit_xor_digit : (x y : ℕ) → bit_xor x y ≡ bit_xor (x / 2) (y / 2) * 2 + (x % 2 + y % 2) % 2
bit_xor_digit x y =
    omega (arith, bit_xor-differ x y, digit_differ (x % 2) (y % 2) (omega arith) (omega arith))

bit_and-zero_below : (k x : ℕ) → x ≤ k → bit_and x 0 ≡ 0
bit_and-zero_below k zero h = refl
bit_and-zero_below zero (suc x) h = absurd (omega arith)
bit_and-zero_below (suc k) (suc x) h =
    omega (arith, bit_and_digit (suc x) 0, bit_and-zero_below k (suc x / 2) (omega arith))

bit_and_low_field : (k r q : ℕ) → r < 2 ^ k → bit_and (r + q * 2 ^ k) (2 ^ k - 1) ≡ r
bit_and_low_field zero r q h =
    omega (arith, bit_and-zero_below (r + q * 2 ^ 0) (r + q * 2 ^ 0) (omega arith))
bit_and_low_field (suc k) r q h = ground (
  arith,
  bit_and_digit (r + q * 2 ^ suc k) (2 ^ suc k - 1),
  ap (λ (t : ℕ). q * t) (pow-suc 2 k),
  pow-suc 2 k,
  one-le-pow k 2,
  bit_and_low_field k (r / 2) q,
)

-- A mask of `k` low ones is the remainder by `2 ^ k`.
pub bit_and-low_mask : (k x : ℕ) → bit_and x (2 ^ k - 1) ≡ x % 2 ^ k
bit_and-low_mask k x = ground (arith, one-le-pow k 2, bit_and_low_field k (x % 2 ^ k) (x / 2 ^ k))

-- A low field and a field above it: `|` is their sum.
pub bit_or_above : (k r q : ℕ) → r < 2 ^ k → bit_or r (q * 2 ^ k) ≡ r + q * 2 ^ k
bit_or_above zero zero q h = omega (arith, bit_or-bitwise 0 (q * 2 ^ 0))
bit_or_above zero (suc r) q h = absurd (omega arith)
bit_or_above (suc k) r q h = ground (
  arith,
  bit_or_digit r (q * 2 ^ suc k),
  ap (λ (t : ℕ). q * t) (pow-suc 2 k),
  pow-suc 2 k,
  bit_or_above k (r / 2) q,
)

-- `^` with bit `k` sets it where it was clear, and clears it where it was set.
pub bit_xor_set : (k x : ℕ) → x < 2 ^ k → bit_xor x (2 ^ k) ≡ x + 2 ^ k
bit_xor_set zero zero h = omega (arith, bit_xor_digit 0 1, bit_xor-bitwise 0 0)
bit_xor_set zero (suc x) h = absurd (omega arith)
bit_xor_set (suc k) x h =
    ground (arith, bit_xor_digit x (2 ^ suc k), pow-suc 2 k, bit_xor_set k (x / 2))

pub bit_xor_clear : (k x : ℕ) → x < 2 ^ k → bit_xor (x + 2 ^ k) (2 ^ k) ≡ x
bit_xor_clear zero zero h = omega (arith, bit_xor_digit 1 1, bit_xor-bitwise 0 0)
bit_xor_clear zero (suc x) h = absurd (omega arith)
bit_xor_clear (suc k) x h =
    ground (arith, bit_xor_digit (x + 2 ^ suc k) (2 ^ suc k), pow-suc 2 k, bit_xor_clear k (x / 2))

-- A mask whose low `k` bits are clear works on the bits above them.
pub bit_and-high_mask : (k x m : ℕ) → bit_and x (m * 2 ^ k) ≡ bit_and (x / 2 ^ k) m * 2 ^ k
bit_and-high_mask zero x m =
    let a : x ≡ x / 2 ^ 0 = omega arith in
    let b : m * 2 ^ 0 ≡ m = omega arith in
    let c : bit_and (x / 2 ^ 0) m ≡ bit_and (x / 2 ^ 0) m * 2 ^ 0 = omega arith in
    ap₂ bit_and a b ∙ c
bit_and-high_mask (suc k) x m = ground (
  arith,
  bit_and_digit x (m * 2 ^ suc k),
  ap (λ (t : ℕ). m * t) (pow-suc 2 k),
  pow-suc 2 k,
  ap (λ (t : ℕ). bit_and (x / 2 / 2 ^ k) m * t) (pow-suc 2 k),
  halving,
  bit_and-high_mask k (x / 2) m,
)
  where
    halving : x / 2 / 2 ^ k ≡ x / 2 ^ suc k
    halving = rw (pow-suc 2 k, mul_comm (2 ^ k) 2) (div-div-eq-div-mul x 2 (2 ^ k))

bit_or-zero_below : (k x : ℕ) → x ≤ k → bit_or x 0 ≡ x
bit_or-zero_below k zero h = refl
bit_or-zero_below zero (suc x) h = absurd (omega arith)
bit_or-zero_below (suc k) (suc x) h =
    omega (arith, bit_or_digit (suc x) 0, bit_or-zero_below k (suc x / 2) (omega arith))

pub bit_or-zero : (x : ℕ) → bit_or x 0 ≡ x
bit_or-zero x = bit_or-zero_below x x (omega arith)

pub bit_or_shifted : (k x y : ℕ) → bit_or x y / 2 ^ k ≡ bit_or (x / 2 ^ k) (y / 2 ^ k)
bit_or_shifted zero x y =
    let a : x / 2 ^ 0 ≡ x = omega arith in
    let b : y / 2 ^ 0 ≡ y = omega arith in omega (arith, ap₂ bit_or a b)
bit_or_shifted (suc k) x y =
    rw (pow-suc 2 k, mul_comm (2 ^ k) 2)
      (sym (div-div-eq-div-mul (bit_or x y) 2 (2 ^ k))
        ∙ ap (λ (t : ℕ). t / 2 ^ k) (halves x y)
        ∙ bit_or_shifted k (x / 2) (y / 2)
        ∙ ap₂ bit_or (div-div-eq-div-mul x 2 (2 ^ k)) (div-div-eq-div-mul y 2 (2 ^ k)))
  where
    halves : (x y : ℕ) → bit_or x y / 2 ≡ bit_or (x / 2) (y / 2)
    halves x y = omega (arith, bit_or_digit x y)

bit_or_comm_below : (k x y : ℕ) → x ≤ k → y ≤ k → bit_or x y ≡ bit_or y x
bit_or_comm_below zero x y hx hy =
    let a : x ≡ 0 = omega arith in
    let b : y ≡ 0 = omega arith in ap₂ bit_or a b ∙ sym (ap₂ bit_or b a)
bit_or_comm_below (suc k) x y hx hy = omega (
  arith,
  bit_or_digit x y,
  bit_or_digit y x,
  bit_or_comm_below k (x / 2) (y / 2) (omega arith) (omega arith),
)

pub bit_or_comm : (x y : ℕ) → bit_or x y ≡ bit_or y x
bit_or_comm x y = bit_or_comm_below (x + y) x y (omega arith) (omega arith)

-- The test of one bit.
pub bit_and-bit : (k x : ℕ) → bit_and x (1 * 2 ^ k) ≡ x / 2 ^ k % 2 * 2 ^ k
bit_and-bit k x =
    bit_and-high_mask k x 1 ∙ ap (λ (t : ℕ). t * 2 ^ k) (bit_and-low_mask 1 (x / 2 ^ k))

-- `|` with an even number leaves the lowest bit as it is.
pub bit_or_even : (x m : ℕ) → bit_or x (m * 2) ≡ bit_or (x / 2) m * 2 + x % 2
bit_or_even x m =
    let half : m * 2 / 2 ≡ m = omega arith in
    let none : m * 2 % 2 ≡ 0 = omega arith in
    omega (arith, bit_or_digit x (m * 2), ap (λ (t : ℕ). bit_or (x / 2) t) half, none)

-- `|` with a mask whose low `k` bits are clear works on the bits above them.
pub bit_or-high_mask :
    (k x r m : ℕ) → r < 2 ^ k → bit_or (x * 2 ^ k + r) (m * 2 ^ k) ≡ bit_or x m * 2 ^ k + r
bit_or-high_mask zero x r m h =
    let a : x * 2 ^ 0 + r ≡ x = omega arith in
    let b : m * 2 ^ 0 ≡ m = omega arith in ap₂ bit_or a b ∙ omega arith
bit_or-high_mask (suc k) x r m h =
    ap₂ bit_or (omega (arith, doubled x)) (doubled m)
    ∙ bit_or_even ((x * 2 ^ k) * 2 + r) (m * 2 ^ k)
    ∙ ap (λ (t : ℕ). t * 2 + ((x * 2 ^ k) * 2 + r) % 2)
        (ap (λ (t : ℕ). bit_or t (m * 2 ^ k)) half
          ∙ bit_or-high_mask k x (r / 2) m (omega (arith, pow-suc 2 k)))
    ∙ omega (arith, doubled (bit_or x m))
  where
    doubled : (t : ℕ) → t * 2 ^ suc k ≡ (t * 2 ^ k) * 2
    doubled t = ground (arith, pow-suc 2 k, ap (λ (p : ℕ). t * p) (pow-suc 2 k))

    half : ((x * 2 ^ k) * 2 + r) / 2 ≡ x * 2 ^ k + r / 2
    half = omega arith
