-- ===== src/Tb/Match/Agreement.antt =====
-- The matcher of tb/differential/partial_order_matcher.cpp beside the comparison of trace_compare.cpp.
use boom.Base.{
  ℕ, Bool, true, false, not, ◌&&◌, ◌||◌, if◌then◌else◌, List, [], ◌∷◌, length, ◌≡◌, refl, ap, ap₂,
  ◌∙◌, if_true, if_false, ◌==◌,
}
use boom.Base.Text.{same_text}
use boom.Tb.Json.{
  Event, is_commit, is_branch, parse_event, load_events, compare_events, compare_loaded,
  compare_files, signature,
}
use boom.Tb.Match.{commits_of, compare_commits, run_partial_order}

-- The commits of a list with an event in front, where both, one or none of the loads takes it.
commits_of-load_one :
    (e : Event) (es : List Event)
    → commits_of (if is_commit e || not false && is_branch e then e ∷ es else es)
      ≡ (if is_commit e || not true && is_branch e then e ∷ commits_of es else commits_of es)
unfolding commits_of
commits_of-load_one e es = by_kind (is_commit e) (is_branch e) refl
  where
    by_kind :
        (c b : Bool)
        → is_commit e ≡ c
        → commits_of (if c || not false && b then e ∷ es else es)
          ≡ (if c || not true && b then e ∷ commits_of es else commits_of es)
    by_kind true b h = if_true _ _ h
    by_kind false true h = if_false _ _ h
    by_kind false false h = refl

commits_of-nil : commits_of [] ≡ []
unfolding commits_of
commits_of-nil = refl

commits_of-load_events :
    (lines : List (List ℕ)) → commits_of (load_events lines false) ≡ load_events lines true
unfolding load_events
commits_of-load_events [] = commits_of-nil
commits_of-load_events (line ∷ lines) =
    commits_of-load_one (parse_event line) (load_events lines false)
    ∙ ap
        (λ es.
          if is_commit (parse_event line) || not true && is_branch (parse_event line)
          then parse_event line ∷ es
          else es)
        (commits_of-load_events lines)

compare_commits-compare_events :
    (ref dut : List Event) → compare_commits ref dut ≡ compare_events false ref dut
unfolding compare_commits compare_events
compare_commits-compare_events [] [] = refl
compare_commits-compare_events [] (b ∷ dut) = refl
compare_commits-compare_events (a ∷ ref) [] = refl
compare_commits-compare_events (a ∷ ref) (b ∷ dut) =
    ap (λ n. if same_text (signature a false) (signature b false) then n else 1)
      (compare_commits-compare_events ref dut)

-- The partial order matcher ends with the exit code of the comparison of the commits alone, without their
-- cycles: how the branches stand in the two traces never decides.
run_partial_order-compare_files :
    (ref dut : List (List ℕ)) → (run_partial_order ref dut).0 ≡ compare_files ref dut true false
unfolding run_partial_order compare_files compare_loaded
run_partial_order-compare_files ref dut =
    compare_with (commits_of-load_events ref) (commits_of-load_events dut)
  where
    compare_with :
        {a a' b b' : List Event}
        → a ≡ a'
        → b ≡ b'
        → (if length a == length b then compare_commits a b else 1)
          ≡ (if length a' == length b' then compare_events false a' b' else 1)
    compare_with {a} {a'} {b} {b'} ea eb =
        ap₂ (λ x y. if length x == length y then compare_commits x y else 1) ea eb
        ∙ ap (λ n. if length a' == length b' then n else 1) (compare_commits-compare_events a' b')
