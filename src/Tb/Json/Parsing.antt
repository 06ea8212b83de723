-- ===== src/Tb/Json/Parsing.antt =====
-- `value` of tb/differential/trace_json_util.hpp: the value behind the first occurrence of its key.
use boom.Base.{
  ℕ, Bool, true, false, not, ◌&&◌, ◌||◌, ◌==◌, List, [], ◌∷◌, ◌++◌, Option, none, some, ◌≡◌, refl,
  sym, ap, ◌∙◌, arith, if_true, if_false, eq→==,
}
use mathlib.Core.Option
use boom.Base.Text.{or_else, strip, after_first}
use boom.Tb.Json.{up_to, up_to_delimiter, needle_of, value_at, value, value_behind, or_empty}

strip-append : (needle tail : List ℕ) → strip needle (needle ++ tail) ≡ some tail
unfolding strip
strip-append [] tail = refl
strip-append (x ∷ xs) tail = if_true _ none (eq→== x x refl) ∙ strip-append xs tail

abbrev is_none {ℓ} : {A : Type ℓ} → Option A → Bool
is_none none = true
is_none (some a) = false

-- No occurrence of the needle starts within `before`, which `line` follows.
unfoldable pub starts_nowhere : List ℕ → List ℕ → List ℕ → Bool
starts_nowhere needle [] line = true
starts_nowhere needle (c ∷ before) line =
    let rest = starts_nowhere needle before line in
    is_none (strip needle (c ∷ before ++ line)) && rest

is_none-none {ℓ} : {A : Type ℓ} (o : Option A) → is_none o ≡ true → o ≡ none
is_none-none none h = refl
is_none-none (some a) h = absurd (ground arith)

left : (a b : Bool) → (a && b) ≡ true → a ≡ true
left true b h = refl
left false b h = h

right : (a b : Bool) → (a && b) ≡ true → b ≡ true
right true b h = h
right false b h = absurd (ground arith)

after_first-here : (x : ℕ) (xs tail : List ℕ) → after_first (x ∷ xs) (x ∷ xs ++ tail) ≡ some tail
unfolding after_first
after_first-here x xs tail =
    ap (λ o. or_else o (after_first (x ∷ xs) (xs ++ tail))) (strip-append (x ∷ xs) tail)

after_first-skips :
    (x : ℕ) (xs before tail : List ℕ)
    → starts_nowhere (x ∷ xs) before (x ∷ xs ++ tail) ≡ true
    → after_first (x ∷ xs) (before ++ (x ∷ xs ++ tail)) ≡ some tail
unfolding after_first starts_nowhere
after_first-skips x xs [] tail h = after_first-here x xs tail
after_first-skips x xs (c ∷ before) tail h =
    ap (λ o. or_else o (after_first (x ∷ xs) (before ++ (x ∷ xs ++ tail))))
      (is_none-none (strip (x ∷ xs) (c ∷ before ++ (x ∷ xs ++ tail)))
        (left _ (starts_nowhere (x ∷ xs) before (x ∷ xs ++ tail)) h))
    ∙ after_first-skips x xs before tail
        (right (is_none (strip (x ∷ xs) (c ∷ before ++ (x ∷ xs ++ tail)))) _ h)

-- The byte does not occur.
unfoldable pub lacks : ℕ → List ℕ → Bool
lacks c [] = true
lacks c (x ∷ xs) = let rest = lacks c xs in not (x == c) && rest

up_to-append : (c : ℕ) (v rest : List ℕ) → lacks c v ≡ true → up_to c (v ++ c ∷ rest) ≡ some v
unfolding up_to lacks
up_to-append c [] rest h = if_true _ _ (eq→== c c refl)
up_to-append c (x ∷ v) rest h =
    if_false (some []) (Option.map (◌∷◌ x) (up_to c (v ++ c ∷ rest)))
      (negated (x == c) (left _ (lacks c v) h))
    ∙ ap (Option.map (◌∷◌ x)) (up_to-append c v rest (right (not (x == c)) _ h))
  where
    negated : (b : Bool) → not b ≡ true → b ≡ false
    negated true h = absurd (ground arith)
    negated false h = refl

-- The byte ends an unquoted value.
abbrev ends_value : ℕ → Bool
ends_value x = x == b',' || x == b'}'

unfoldable pub is_plain : List ℕ → Bool
is_plain [] = true
is_plain (x ∷ xs) = let rest = is_plain xs in not (ends_value x) && rest

up_to_delimiter-append :
    (v rest : List ℕ) (c : ℕ)
    → is_plain v ≡ true
    → ends_value c ≡ true
    → up_to_delimiter (v ++ c ∷ rest) ≡ v
unfolding up_to_delimiter is_plain
up_to_delimiter-append [] rest c h e = if_true _ _ e
up_to_delimiter-append (x ∷ v) rest c h e =
    ground (arith, up_to_delimiter-append v rest c (right (not (ends_value x)) _ h) e)

value-behind :
    (key before tail : List ℕ)
    → starts_nowhere (needle_of key) before (needle_of key ++ tail) ≡ true
    → value (before ++ (needle_of key ++ tail)) key ≡ value_at tail
unfolding value value_at value_behind
value-behind key before tail h =
    ap value_behind (after_first-skips b'"' (key ++ b'"' ∷ b':' ∷ []) before tail h)

-- How a value may stand behind its key: in quotes, or bare up to a comma or a brace.
pub data IsWritten (v tail : List ℕ) : Type 0 where
  quoted : (rest : List ℕ) → lacks b'"' v ≡ true → tail ≡ b'"' ∷ v ++ b'"' ∷ rest → IsWritten v tail
  bare :
      (x c : ℕ) (w rest : List ℕ)
      → v ≡ x ∷ w
      → (x == b'"') ≡ false
      → is_plain v ≡ true
      → ends_value c ≡ true
      → tail ≡ v ++ c ∷ rest
      → IsWritten v tail

value_at-IsWritten : (v tail : List ℕ) → IsWritten v tail → value_at tail ≡ v
unfolding value_at
value_at-IsWritten v tail (quoted rest inside e) =
    ap value_at e ∙ ap or_empty (up_to-append b'"' v rest inside)
value_at-IsWritten v tail (bare x c w rest nonempty unquoted plain end e) =
    ap value_at (e ∙ ap (λ u. u ++ c ∷ rest) nonempty)
    ∙ if_false _ _ unquoted
    ∙ up_to_delimiter-append (x ∷ w) rest c (ap is_plain (sym nonempty) ∙ plain) end
    ∙ sym nonempty

-- On a line where the key in quotes with its colon does not occur before a certain place, but there, the
-- value of the key is what is written behind it: in quotes, or bare up to a comma or a brace.
value-IsWritten :
    (key before v tail : List ℕ)
    → starts_nowhere (needle_of key) before (needle_of key ++ tail) ≡ true
    → IsWritten v tail
    → value (before ++ (needle_of key ++ tail)) key ≡ v
value-IsWritten key before v tail first written =
    value-behind key before tail first ∙ value_at-IsWritten v tail written
