-- ===== src/Tb/Json/Agreement.antt =====
-- `compare_files` of tb/differential/trace_json_util.hpp: what its exit code means.
use boom.Base.{
  ℕ, suc, Bool, true, false, ◌==◌, if◌then◌else◌, List, [], ◌∷◌, length, map, ◌≡◌, ◌↔◌, ◌≢◌, ◌⊎◌,
  refl, sym, ap, ap₂, ◌∙◌, arith, Bool-cases, inl, inr, if_true, if_false, eq→==, length-map,
}
use boom.Base.Text.{same_text, same_text_refl, same_text_eq}
use boom.Tb.Json.{Event, signature, compare_events, compare_loaded, compare_files, load_events}

-- The signatures of a trace, in order.
abbrev pub signatures : Bool → List Event → List (List ℕ)
signatures include_cycle es = map (λ e. signature e include_cycle) es

one_not_zero : {n : ℕ} → suc n ≢ 0
one_not_zero = omega arith

-- The first signature and those behind it.
first : List (List ℕ) → List ℕ
first [] = []
first (x ∷ xs) = x

others : List (List ℕ) → List (List ℕ)
others [] = []
others (x ∷ xs) = xs

module _ (include_cycle : Bool) where
  accepts-same :
      (ref dut : List Event)
      → length ref ≡ length dut
      → compare_events include_cycle ref dut ≡ 0
      → signatures include_cycle ref ≡ signatures include_cycle dut
  unfolding compare_events
  accepts-same [] [] h c = refl
  accepts-same [] (b ∷ dut) h c = absurd (omega arith)
  accepts-same (a ∷ ref) [] h c = absurd (omega arith)
  accepts-same (a ∷ ref) (b ∷ dut) h c =
      elim (Bool-cases (same_text (signature a include_cycle) (signature b include_cycle))) [
        | inl e ↦
            ap₂ ◌∷◌ (same_text_eq _ _ e)
              (accepts-same ref dut (omega arith) (sym (if_true _ 1 e) ∙ c))
        | inr e ↦ absurd (one_not_zero (sym (if_false _ 1 e) ∙ c))
      ]

  same-accepts :
      (ref dut : List Event)
      → signatures include_cycle ref ≡ signatures include_cycle dut
      → compare_events include_cycle ref dut ≡ 0
  unfolding compare_events first others
  same-accepts [] [] h = refl
  same-accepts [] (b ∷ dut) h = refl
  same-accepts (a ∷ ref) [] h = refl
  same-accepts (a ∷ ref) (b ∷ dut) h =
      if_true _ 1 (ap (same_text (signature a include_cycle)) (sym (ap first h)) ∙ same_text_refl _)
      ∙ same-accepts ref dut (ap others h)

  loaded-accepts :
      (ref dut : List Event)
      → (compare_loaded include_cycle ref dut ≡ 0)
        ↔ (signatures include_cycle ref ≡ signatures include_cycle dut)
  unfolding compare_loaded
  loaded-accepts ref dut = (accepted (Bool-cases (length ref == length dut)), same)
    where
      accepted :
          (length ref == length dut ≡ true) ⊎ (length ref == length dut ≡ false)
          → (if length ref == length dut then compare_events include_cycle ref dut else 1) ≡ 0
          → signatures include_cycle ref ≡ signatures include_cycle dut
      accepted (inl e) c = accepts-same ref dut (ground arith) (sym (if_true _ 1 e) ∙ c)
      accepted (inr e) c = absurd (one_not_zero (sym (if_false _ 1 e) ∙ c))

      same :
          signatures include_cycle ref ≡ signatures include_cycle dut
          → (if length ref == length dut then compare_events include_cycle ref dut else 1) ≡ 0
      same h =
          let lengths =
            sym (length-map (λ e. signature e include_cycle) ref)
            ∙ ap length h
            ∙ length-map (λ e. signature e include_cycle) dut in
          if_true _ 1 (eq→== (length ref) (length dut) lengths) ∙ same-accepts ref dut h

-- The comparison of two traces ends with 0 exactly if the events that it loads from them have the same
-- signatures in the same order, whether it loads the commits alone and whether it looks at the cycles.
pub compare_files-accepts :
    (ref dut : List (List ℕ)) (commits_only include_cycle : Bool)
    → (compare_files ref dut commits_only include_cycle ≡ 0) ↔ (
        signatures include_cycle (load_events ref commits_only)
        ≡ signatures include_cycle (load_events dut commits_only))
unfolding compare_files
compare_files-accepts ref dut commits_only include_cycle =
    loaded-accepts include_cycle (load_events ref commits_only) (load_events dut commits_only)
