-- ===== src/Tb/Memory/Bytes.antt =====
-- `read64` and `write` of the memory model of tb/differential/lsu_minimal_tests.cpp, byte by byte.
use boom.Base.{
  ℕ, zero, suc, ◌+◌, ◌-◌, ◌*◌, ◌/◌, ◌^◌, ◌≤◌, ◌<◌, true, ltb, List, get_or, ◌≡◌, refl, sym, ap, ap₂,
  subst, ◌∙◌, arith, if_true,
}
use boom.Base.Bits.{bit_and-low_mask, bit_and-high_mask, bit_or_above}
use native.Mathlib.Nat.{pow-suc, mul_comm, mul-le-mul_right, div-div-eq-div-mul}
use boom.Lsu.Value.Bytes.{little_endian}
use boom.Tb.Memory.{read_loop, read64, aligned}

-- Every element is a byte.
unfoldable pub AreBytes : List ℕ → Type 0
AreBytes bs = (j : ℕ) → get_or bs j 0 < 256

-- The `n` bytes from `s` on as one number, the first the least significant.
unfoldable pub word_at : List ℕ → ℕ → ℕ → ℕ
word_at bs zero s = 0
word_at bs (suc n) s = get_or bs s 0 + 256 * word_at bs n (s + 1)

power_of_more : (n : ℕ) → 2 ^ suc (suc (suc (suc (suc (suc (suc (suc n))))))) ≡ 2 ^ n * 256
power_of_more n = omega (
  arith,
  pow-suc 2 n,
  pow-suc 2 (suc n),
  pow-suc 2 (suc (suc n)),
  pow-suc 2 (suc (suc (suc n))),
  pow-suc 2 (suc (suc (suc (suc n)))),
  pow-suc 2 (suc (suc (suc (suc (suc n))))),
  pow-suc 2 (suc (suc (suc (suc (suc (suc n)))))),
  pow-suc 2 (suc (suc (suc (suc (suc (suc (suc n))))))),
)

pub byte_power : (i : ℕ) → 2 ^ (8 * (i + 1)) ≡ 2 ^ (8 * i) * 256
byte_power i =
    let e : 8 * (i + 1) ≡ suc (suc (suc (suc (suc (suc (suc (suc (8 * i)))))))) = omega arith in
    ap (λ (n : ℕ). 2 ^ n) e ∙ power_of_more (8 * i)

one_more_fits : (p v b : ℕ) → v < p → b < 256 → v + b * p < p * 256
one_more_fits p v b hv hb = let h : b ≤ 255 = omega arith in omega (arith, mul-le-mul_right p h)

one_more_byte : (p v b w : ℕ) → v + b * p + p * 256 * w ≡ v + p * (b + 256 * w)
one_more_byte p v b w = grind arith

read_loop-word_at :
    (bs : List ℕ) (base k i v : ℕ)
    → AreBytes bs
    → base + i + k ≤ 256
    → v < 2 ^ (8 * i)
    → read_loop bs base k i v ≡ v + 2 ^ (8 * i) * word_at bs k (base + i)
unfolding read_loop word_at AreBytes
read_loop-word_at bs base zero i v hb h hv = omega arith
read_loop-word_at bs base (suc k) i v hb h hv =
    ap (read_loop bs base k (i + 1)) (if_true _ v in_range ∙ bit_or_above (8 * i) v b hv)
    ∙ read_loop-word_at bs base k (i + 1) (v + b * 2 ^ (8 * i)) hb (omega arith) fits
    ∙ ap₂ (λ (p s : ℕ). v + b * 2 ^ (8 * i) + p * word_at bs k s) (byte_power i) (omega arith)
    ∙ one_more_byte (2 ^ (8 * i)) v b (word_at bs k (base + i + 1))
  where
    b : ℕ
    b = get_or bs (base + i) 0

    in_range : ltb (base + i) 256 ≡ true
    in_range = ground arith

    fits : v + b * 2 ^ (8 * i) < 2 ^ (8 * (i + 1))
    fits =
        subst (λ (p : ℕ). v + b * 2 ^ (8 * i) < p) (sym (byte_power i))
          (one_more_fits (2 ^ (8 * i)) v b hv (hb (base + i)))

aligned-lem : (addr : ℕ) → addr < 256 → aligned addr ≡ addr / 8 * 8
unfolding aligned
aligned-lem addr h =
    bit_and-high_mask 3 addr (2 ^ 61 - 1)
    ∙ ap (λ (x : ℕ). x * 2 ^ 3) (bit_and-low_mask 61 (addr / 2 ^ 3))
    ∙ omega arith

-- A read gives the doubleword around the address.
pub read64-word_at :
    (bs : List ℕ) (addr : ℕ)
    → AreBytes bs
    → addr < 256
    → read64 bs addr ≡ word_at bs 8 (addr / 8 * 8)
unfolding read64
read64-word_at bs addr hb h =
    let base = aligned-lem addr h in
    let start : aligned addr + 0 ≡ addr / 8 * 8 = omega (arith, base) in
    read_loop-word_at bs (aligned addr) 8 0 0 hb (omega (arith, base)) (omega arith)
    ∙ omega arith
    ∙ ap (word_at bs 8) start

-- The bytes above the first `off`, and the lowest `n`.
pub drop_bytes :
    (bs : List ℕ) (off n s : ℕ)
    → AreBytes bs
    → word_at bs (off + n) s / 2 ^ (off * 8) ≡ word_at bs n (s + off)
unfolding word_at AreBytes
drop_bytes bs zero n s hb =
    let k : 0 + n ≡ n = omega arith in
    let t : s + 0 ≡ s = omega arith in
    ap (λ (k : ℕ). word_at bs k s / 2 ^ (0 * 8)) k ∙ omega arith ∙ ap (word_at bs n) (sym t)
drop_bytes bs (suc off) n s hb =
    ap₂ (λ (k p : ℕ). word_at bs k s / p) more_bytes power
    ∙ sym (div-div-eq-div-mul (word_at bs (suc (off + n)) s) 256 (2 ^ (off * 8)))
    ∙ ap (λ (w : ℕ). w / 2 ^ (off * 8)) (omega (arith, hb s))
    ∙ drop_bytes bs off n (s + 1) hb
    ∙ ap (word_at bs n) (omega arith)
  where
    more_bytes : suc off + n ≡ suc (off + n)
    more_bytes = omega arith

    power : 2 ^ (suc off * 8) ≡ 256 * 2 ^ (off * 8)
    power =
        let e : suc off * 8 ≡ suc (suc (suc (suc (suc (suc (suc (suc (off * 8)))))))) =
          omega arith in
        ap (λ (n : ℕ). 2 ^ n) e ∙ power_of_more (off * 8) ∙ mul_comm (2 ^ (off * 8)) 256

pub low_bytes :
    (bs : List ℕ) (n m s : ℕ)
    → AreBytes bs
    → little_endian n (word_at bs (n + m) s) ≡ word_at bs n s
unfolding little_endian word_at AreBytes
low_bytes bs zero m s hb = refl
low_bytes bs (suc n) m s hb =
    ap (little_endian (suc n)) (ap (λ (k : ℕ). word_at bs k s) more_bytes)
    ∙ ap₂ (λ (b w : ℕ). b + 256 * little_endian n w) (omega (arith, hb s)) (omega (arith, hb s))
    ∙ ap (λ (w : ℕ). get_or bs s 0 + 256 * w) (low_bytes bs n m (s + 1) hb)
  where
    more_bytes : suc n + m ≡ suc (n + m)
    more_bytes = omega arith
