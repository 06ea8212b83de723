-- ===== src/Base/Text.antt =====
-- Text as the list of its bytes.
use Prim.Native.Nat.{ℕ}
use Prim.Native.Char.{code}
use Prim.Native.String.{String}
use mathlib.Core.Path.{◌≡◌, refl, ap₂}
use mathlib.Core.Bool.{Bool, true, false, ◌&&◌}
use mathlib.Core.List.{List, [], ◌∷◌}
use mathlib.Core.Option.{Option, none, some}
use native.Mathlib.Omega.{arith}
use boom.Base.Tests.{◌==◌, if◌then◌else◌}

abbrev pub codes : String → List ℕ
codes String.[] = []
codes (String.◌∷◌ c s) = code c ∷ codes s

-- `==` of two texts.
unfoldable pub same_text : List ℕ → List ℕ → Bool
same_text [] [] = true
same_text [] (y ∷ ys) = false
same_text (x ∷ xs) [] = false
same_text (x ∷ xs) (y ∷ ys) = x == y && same_text xs ys

pub same_text_refl : (xs : List ℕ) → same_text xs xs ≡ true
unfolding same_text
same_text_refl [] = refl
same_text_refl (x ∷ xs) = ground (arith, same_text_refl xs)

pub same_text_eq : (xs ys : List ℕ) → same_text xs ys ≡ true → xs ≡ ys
unfolding same_text
same_text_eq [] [] h = refl
same_text_eq [] (y ∷ ys) h = absurd (ground arith)
same_text_eq (x ∷ xs) [] h = absurd (ground arith)
same_text_eq (x ∷ xs) (y ∷ ys) h =
    let e : x ≡ y = ground arith in
    let t : same_text xs ys ≡ true = ground arith in ap₂ ◌∷◌ e (same_text_eq xs ys t)

-- What stands behind a prefix, if the text has it.
unfoldable pub strip : List ℕ → List ℕ → Option (List ℕ)
strip [] ys = some ys
strip (x ∷ xs) [] = none
strip (x ∷ xs) (y ∷ ys) = let rest = strip xs ys in if x == y then rest else none

abbrev pub or_else {ℓ} : {A : Type ℓ} → Option A → Option A → Option A
or_else (some r) rest = some r
or_else none rest = rest

-- `find` of a text, as what stands behind its first occurrence.
unfoldable pub after_first : List ℕ → List ℕ → Option (List ℕ)
unfolding strip
after_first needle [] = strip needle []
after_first needle (c ∷ line) =
    let rest = after_first needle line in or_else (strip needle (c ∷ line)) rest
