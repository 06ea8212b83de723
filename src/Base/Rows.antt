-- ===== src/Base/Rows.antt =====
-- Rows of a trace file, each with the value of the 64-bit counter `seq++`.
use Prim.{tt}
use Prim.Native.Nat.{ℕ, suc, ◌+◌}
use mathlib.Core.Path.{◌≡◌, ap, ◌∙◌}
use mathlib.Core.List.{List, [], ◌∷◌, ◌++◌}
use native.Mathlib.Omega.{arith}
use boom.Base.Lists.{length, length-append}
use boom.Base.Word.{u64}

pub record Row {ℓ} (E : Type ℓ) : Type ℓ where
  pub trace_sequence_id : ℕ
  pub event : E

abbrev pub row {ℓ} : {E : Type ℓ} → ℕ → E → Row E
row k e = record { trace_sequence_id = k; event = e }

module _ {ℓ} {E : Type ℓ} where
  -- The ids of the rows count up from `k`, as the counter does.
  unfoldable pub AreNumbered : ℕ → List (Row E) → Type 0
  AreNumbered k [] = Unit
  AreNumbered k (r ∷ rs) = (r.trace_sequence_id ≡ u64 k) × AreNumbered (suc k) rs

  pub AreNumbered-append :
      (k : ℕ) (rs : List (Row E)) (r : Row E)
      → AreNumbered k rs
      → r.trace_sequence_id ≡ u64 (k + length rs)
      → AreNumbered k (rs ++ r ∷ [])
  unfolding AreNumbered
  AreNumbered-append k [] r h e = (e ∙ ap (λ (n : ℕ). u64 n) (omega arith), tt)
  AreNumbered-append k (x ∷ rs) r h e =
      (h.0, AreNumbered-append (suc k) rs r h.1 (e ∙ ap (λ (n : ℕ). u64 n) (omega arith)))

  -- A row with the counter's value keeps the rows and the counter in step.
  pub row-AreNumbered :
      (rs : List (Row E)) (seq : ℕ) (e : E)
      → AreNumbered 0 rs
      → seq ≡ u64 (length rs)
      → AreNumbered 0 (rs ++ row seq e ∷ [])
  row-AreNumbered rs seq e h n =
      AreNumbered-append 0 rs (row seq e) h (n ∙ ap (λ (n : ℕ). u64 n) (omega arith))

  pub row-next :
      (rs : List (Row E)) (seq : ℕ) (e : E)
      → seq ≡ u64 (length rs)
      → u64 (seq + 1) ≡ u64 (length (rs ++ row seq e ∷ []))
  row-next rs seq e n = omega (arith, n, length-append rs (row seq e ∷ []))

  -- The rows that `count` counts, with their weights.
  unfoldable pub count_rows : (E → ℕ) → List (Row E) → ℕ
  count_rows count [] = 0
  count_rows count (r ∷ rs) = count r.event + count_rows count rs

  pub count_rows-append :
      (count : E → ℕ) (rs : List (Row E)) (r : Row E)
      → count_rows count (rs ++ r ∷ []) ≡ count_rows count rs + count r.event
  unfolding count_rows
  count_rows-append count [] r = omega arith
  count_rows-append count (x ∷ rs) r = omega (arith, count_rows-append count rs r)
