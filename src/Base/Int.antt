-- ===== src/Base/Int.antt =====
-- Integers, and the signed numbers that bit patterns stand for.
use Prim.Native.Nat.{ℕ, ◌-◌, ◌/◌, ◌^◌, ◌<◌}
use mathlib.Core.Path.{◌≡◌}
use mathlib.Core.Bool.{Bool, true, false}
use native.Mathlib.Omega.{arith}
use boom.Base.Tests.{ltb, if◌then◌else◌}
use boom.Base.Word.{u64, ltb_signed, sra64, sext_32_64}

-- `negsuc n` is -(n + 1).
pub data ℤ : Type 0 where
  pos : ℕ → ℤ
  negsuc : ℕ → ℤ

abbrev pub less : ℤ → ℤ → Bool
less (pos a) (pos b) = ltb a b
less (pos a) (negsuc b) = false
less (negsuc a) (pos b) = true
less (negsuc a) (negsuc b) = ltb b a

-- Division that rounds down.
abbrev pub floor_div : ℤ → ℕ → ℤ
floor_div (pos a) d = pos (a / d)
floor_div (negsuc a) d = negsuc (a / d)

abbrev pub signed64 : ℕ → ℤ
signed64 x = if ltb x (2 ^ 63) then pos x else negsuc (2 ^ 64 - 1 - x)

abbrev pub signed32 : ℕ → ℤ
signed32 x = if ltb x (2 ^ 31) then pos x else negsuc (2 ^ 32 - 1 - x)

-- The signed test on patterns is the order of the numbers.
pub ltb_signed-less :
    (a b : ℕ) → a < 2 ^ 64 → b < 2 ^ 64 → ltb_signed a b ≡ less (signed64 a) (signed64 b)
ltb_signed-less a b ha hb = ground arith

-- The cast of an `int32_t` keeps the number.
pub signed64-sext : (x : ℕ) → x < 2 ^ 32 → signed64 (sext_32_64 x) ≡ signed32 x
signed64-sext x h = ground arith

-- The pattern of a number that fits 64 bits.
abbrev pub pattern64 : ℤ → ℕ
pattern64 (pos a) = u64 a
pattern64 (negsuc a) = 2 ^ 64 - 1 - a

-- An arithmetic shift rounds the quotient down.
pub sra64-floor_div :
    (x k : ℕ) → x < 2 ^ 64 → sra64 x k ≡ pattern64 (floor_div (signed64 x) (2 ^ k))
sra64-floor_div x k h = ground arith
