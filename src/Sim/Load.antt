-- ===== src/Sim/Load.antt =====
-- The memory image: `trim`, `hex_nibble` and `SimpleMemory::load_hex` of
-- reference/verilator_trace/standalone_boom_trace.cpp. A file is the list of its lines; `none` is an exit
-- with 3.
pub mod Lines
pub mod Digits
use boom.Base.{
  ℕ, ◌+◌, ◌-◌, ◌*◌, ◌/◌, ◌%◌, ◌^◌, ◌<<<◌, bit_or, u8, u64, Bool, true, false, ◌&&◌, ◌||◌, ◌==◌, leb,
  if◌then◌else◌, List, [], ◌∷◌, length, Option, none, some,
}
use mathlib.Core.List.{reverse}
use boom.Sim.Memory.{SimpleMemory, wrap, put}

-- `isspace` of the C locale.
abbrev pub is_space : ℕ → Bool
is_space c = c == b' ' || leb 9 c && leb c 13

unfoldable pub drop_spaces : List ℕ → List ℕ
drop_spaces [] = []
drop_spaces (c ∷ s) = let rest = drop_spaces s in if is_space c then rest else c ∷ s

unfoldable pub trim : List ℕ → List ℕ
unfolding drop_spaces
trim s = reverse (drop_spaces (reverse (drop_spaces s)))

unfoldable pub hex_nibble : ℕ → Option ℕ
hex_nibble c =
    if leb b'0' c && leb c b'9'
    then some (c - b'0')
    else if leb b'a' c && leb c b'f'
    then some (c - b'a' + 10)
    else if leb b'A' c && leb c b'F'
    then some (c - b'A' + 10)
    else none

-- What stands before the first `#`.
unfoldable pub before_comment : List ℕ → List ℕ
before_comment [] = []
before_comment (c ∷ s) = if c == b'#' then [] else c ∷ before_comment s

unfoldable pub has_comment : List ℕ → Bool
has_comment [] = false
has_comment (c ∷ s) = c == b'#' || has_comment s

-- The text of a line.
unfoldable pub content : List ℕ → List ℕ
unfolding trim before_comment has_comment
content line = let t = trim line in if has_comment t then trim (before_comment t) else t

abbrev pub join_nibbles : Option ℕ → Option ℕ → Option ℕ
join_nibbles (some hi) (some lo) = some (u8 (bit_or (hi <<< 4) lo))
join_nibbles (some hi) none = none
join_nibbles none lo = none

abbrev Bytes : Type 0
Bytes = ℕ → Option ℕ

abbrev store_byte : ℕ → ℕ → Bytes → Option ℕ → Option Bytes
store_byte size addr bytes none = none
store_byte size addr bytes (some b) = some (put bytes (wrap size addr) b)

infixl 5 ◌>>=◌
abbrev pub ◌>>=◌ {ℓ κ} : {A : Type ℓ} {B : Type κ} → Option A → (A → Option B) → Option B
none >>= f = none
some a >>= f = f a

-- The pairs of a line from its end on: the last pair goes to the lowest address.
unfoldable pub load_pairs : ℕ → ℕ → ℕ → List ℕ → Bytes → Option Bytes
unfolding hex_nibble
load_pairs size addr j [] bytes = some bytes
load_pairs size addr j (lo ∷ []) bytes = some bytes
load_pairs size addr j (lo ∷ hi ∷ rest) bytes =
    store_byte size (u64 (addr + j)) bytes (join_nibbles (hex_nibble hi) (hex_nibble lo))
    >>= load_pairs size addr (j + 1) rest

unfoldable pub load_line : ℕ → ℕ → List ℕ → Bytes → Option Bytes
unfolding load_pairs
load_line size addr line bytes =
    if length line % 2 == 1 then none else load_pairs size addr 0 (reverse line) bytes

unfoldable pub load_lines : ℕ → ℕ → List (List ℕ) → Bytes → Option Bytes
unfolding content load_line
load_lines size addr [] bytes = some bytes
load_lines size addr (line ∷ lines) bytes =
    load_line size addr (content line) bytes
    >>= load_lines size (u64 (addr + length (content line) / 2)) lines

abbrev pub with_image : SimpleMemory → Option Bytes → Option SimpleMemory
with_image m none = none
with_image m (some bytes) = some (record m { bytes = bytes })

unfoldable pub load_hex : SimpleMemory → ℕ → List (List ℕ) → Option SimpleMemory
unfolding load_lines
load_hex m start lines = with_image m (load_lines m.size start lines m.bytes)
