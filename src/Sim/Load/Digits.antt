-- ===== src/Sim/Load/Digits.antt =====
-- Which images `load_hex` of reference/verilator_trace/standalone_boom_trace.cpp accepts.
use boom.Base.{
  ℕ, ◌+◌, ◌/◌, ◌%◌, u64, Bool, true, false, ◌&&◌, ◌==◌, List, [], ◌∷◌, ◌++◌, length, length-append,
  Option, none, some, ◌≡◌, refl, ap, ap₂, ◌∙◌, if◌then◌else◌, arith, Bool-cases, inl, inr,
}
use mathlib.Core.List.{reverse, reverse-cons}
use boom.Sim.Memory.{SimpleMemory}
use boom.Sim.Load.Lines.{is_hex, even_hex, even_hex-content, are_lines}
use boom.Sim.Load.{
  hex_nibble, join_nibbles, store_byte, Bytes, ◌>>=◌, load_pairs, load_line, load_lines, load_hex,
  with_image, content,
}

abbrev pub is_some {ℓ} : {A : Type ℓ} → Option A → Bool
is_some none = false
is_some (some a) = true

-- Every character of the text is one that the code takes for a digit.
abbrev all_hex : List ℕ → Bool
all_hex [] = true
all_hex (c ∷ s) = is_some (hex_nibble c) && all_hex s

abbrev are_pairs : List ℕ → Bool
are_pairs line = length line % 2 == 0 && all_hex line

abbrev is_image : List (List ℕ) → Bool
is_image [] = true
is_image (line ∷ lines) = are_pairs (content line) && is_image lines

load_pairs-accepts :
    (size addr j : ℕ) (line : List ℕ) (bytes : Bytes)
    → length line % 2 ≡ 0
    → is_some (load_pairs size addr j line bytes) ≡ all_hex line
unfolding load_pairs
load_pairs-accepts size addr j [] bytes h = refl
load_pairs-accepts size addr j (lo ∷ []) bytes h = absurd (omega arith)
load_pairs-accepts size addr j (lo ∷ hi ∷ rest) bytes h =
    by_digits (hex_nibble hi) (hex_nibble lo)
      (λ bs. load_pairs-accepts size addr (j + 1) rest bs (omega arith))
  where
    by_digits :
        (a b : Option ℕ)
        → ((bs : Bytes) → is_some (load_pairs size addr (j + 1) rest bs) ≡ all_hex rest)
        → is_some (
            store_byte size (u64 (addr + j)) bytes (join_nibbles a b)
            >>= load_pairs size addr (j + 1) rest)
          ≡ (is_some b && (is_some a && all_hex rest))
    by_digits none none ih = refl
    by_digits none (some b) ih = refl
    by_digits (some a) none ih = refl
    by_digits (some a) (some b) ih = ih _

all_hex-append : (s t : List ℕ) → all_hex (s ++ t) ≡ (all_hex s && all_hex t)
all_hex-append [] t = refl
all_hex-append (c ∷ s) t = ground (arith, all_hex-append s t)

all_hex-reverse : (s : List ℕ) → all_hex (reverse s) ≡ all_hex s
all_hex-reverse [] = refl
all_hex-reverse (c ∷ s) =
    ap all_hex (reverse-cons c s)
    ∙ ground (arith, all_hex-append (reverse s) (c ∷ []), all_hex-reverse s)

length-reverse : (s : List ℕ) → length (reverse s) ≡ length s
length-reverse [] = refl
length-reverse (c ∷ s) =
    ap length (reverse-cons c s)
    ∙ omega (arith, length-append (reverse s) (c ∷ []), length-reverse s)

load_line-accepts :
    (size addr : ℕ) (line : List ℕ) (bytes : Bytes)
    → is_some (load_line size addr line bytes) ≡ are_pairs line
unfolding load_line
load_line-accepts size addr line bytes = elim (Bool-cases (length line % 2 == 1)) [
  | inl odd ↦ ground arith
  | inr even ↦
      let h : length (reverse line) % 2 ≡ 0 = ground (arith, length-reverse line) in
      ground (arith, load_pairs-accepts size addr 0 (reverse line) bytes h, all_hex-reverse line)
]

load_lines-accepts :
    (size addr : ℕ) (lines : List (List ℕ)) (bytes : Bytes)
    → is_some (load_lines size addr lines bytes) ≡ is_image lines
unfolding load_lines
load_lines-accepts size addr [] bytes = refl
load_lines-accepts size addr (line ∷ lines) bytes =
    by_line (load_line size addr (content line) bytes)
      (load_line-accepts size addr (content line) bytes)
      (λ bs. load_lines-accepts size (u64 (addr + length (content line) / 2)) lines bs)
  where
    by_line :
        (r : Option Bytes)
        → is_some r ≡ are_pairs (content line)
        → ((bs : Bytes)
            → is_some (load_lines size (u64 (addr + length (content line) / 2)) lines bs)
              ≡ is_image lines)
        → is_some (r >>= load_lines size (u64 (addr + length (content line) / 2)) lines)
          ≡ (are_pairs (content line) && is_image lines)
    by_line none e ih = ap (λ b. b && is_image lines) e
    by_line (some bs) e ih = ih bs ∙ ap (λ b. b && is_image lines) e

hex_nibble-is_hex : (c : ℕ) → is_some (hex_nibble c) ≡ is_hex c
unfolding hex_nibble
hex_nibble-is_hex c = ground arith

are_pairs-even_hex :
    (t : List ℕ) (odd : Bool)
    → ((if odd then length t % 2 == 1 else length t % 2 == 0) && all_hex t) ≡ even_hex odd t
unfolding even_hex
are_pairs-even_hex [] true = refl
are_pairs-even_hex [] false = refl
are_pairs-even_hex (c ∷ t) true = ground (arith, hex_nibble-is_hex c, are_pairs-even_hex t false)
are_pairs-even_hex (c ∷ t) false = ground (arith, hex_nibble-is_hex c, are_pairs-even_hex t true)

is_image-are_lines : (lines : List (List ℕ)) → is_image lines ≡ are_lines lines
unfolding are_lines
is_image-are_lines [] = refl
is_image-are_lines (line ∷ lines) =
    ap₂ ◌&&◌ (are_pairs-even_hex (content line) false ∙ even_hex-content line)
      (is_image-are_lines lines)

-- An image is loaded exactly if every line is blanks, an even number of the characters 0 to 9, a to f and
-- A to F, blanks, and then perhaps a comment that begins with #, whatever the memory and the start are;
-- otherwise the program exits.
pub load_hex-accepts :
    (m : SimpleMemory) (start : ℕ) (lines : List (List ℕ))
    → is_some (load_hex m start lines) ≡ are_lines lines
unfolding load_hex
load_hex-accepts m start lines =
    by_bytes (load_lines m.size start lines m.bytes)
    ∙ load_lines-accepts m.size start lines m.bytes
    ∙ is_image-are_lines lines
  where
    by_bytes : (r : Option Bytes) → is_some (with_image m r) ≡ is_some r
    by_bytes none = refl
    by_bytes (some bs) = refl
