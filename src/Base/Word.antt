-- ===== src/Base/Word.antt =====
-- Machine words: casts to the fixed widths, shifts, and the signed reading of a bit pattern.
use Prim.Native.Nat.{ℕ, ◌+◌, ◌-◌, ◌*◌, ◌/◌, ◌%◌, ◌^◌}
use mathlib.Core.Bool.{Bool}
use boom.Base.Tests.{ltb, if◌then◌else◌}

abbrev pub u8 : ℕ → ℕ
u8 n = n % 2 ^ 8

abbrev pub u16 : ℕ → ℕ
u16 n = n % 2 ^ 16

abbrev pub u32 : ℕ → ℕ
u32 n = n % 2 ^ 32

abbrev pub u64 : ℕ → ℕ
u64 n = n % 2 ^ 64

infixl 75 ◌<<<◌ ◌>>>◌
abbrev pub ◌<<<◌ : ℕ → ℕ → ℕ
x <<< k = x * 2 ^ k

abbrev pub ◌>>>◌ : ℕ → ℕ → ℕ
x >>> k = x / 2 ^ k

-- A signed integer is its two's complement pattern. The cast of an `int32_t` to 64 bits.
abbrev pub sext_32_64 : ℕ → ℕ
sext_32_64 x = if ltb x (2 ^ 31) then x else x + (2 ^ 64 - 2 ^ 32)

-- `>>` of an `int64_t` and of an `int32_t`: the sign comes in from the left.
abbrev pub sra64 : ℕ → ℕ → ℕ
sra64 x k = if ltb x (2 ^ 63) then x / 2 ^ k else 2 ^ 64 - 1 - (2 ^ 64 - 1 - x) / 2 ^ k

abbrev pub sra32 : ℕ → ℕ → ℕ
sra32 x k = if ltb x (2 ^ 31) then x / 2 ^ k else 2 ^ 32 - 1 - (2 ^ 32 - 1 - x) / 2 ^ k

-- `<` of two values of type `int64_t`.
abbrev pub ltb_signed : ℕ → ℕ → Bool
ltb_signed a b = ltb (u64 (a + 2 ^ 63)) (u64 (b + 2 ^ 63))
