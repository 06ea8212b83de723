-- ===== src/Tb/Match.antt =====
-- tb/differential/partial_order_matcher.cpp: the commits of two traces are compared in order; a branch
-- may stand anywhere among them. A file is the list of its lines.
pub mod Agreement
use boom.Base.{
  ℕ, ◌+◌, ◌-◌, ◌*◌, Bool, true, false, ◌&&◌, ◌||◌, ◌==◌, leb, if◌then◌else◌, List, [], ◌∷◌, length,
}
use boom.Base.Int.{ℤ, pos, negsuc, less}
use boom.Base.Text.{codes, same_text}
use boom.Tb.Json.{Event, is_commit, is_branch, load_events, signature}

-- `atoi`, within the range of `int`: blanks, a sign, and digits up to the first other byte.
unfoldable pub digits_value : ℕ → List ℕ → ℕ
digits_value v [] = v
digits_value v (x ∷ xs) =
    let rest = digits_value (v * 10 + (x - b'0')) xs in if leb b'0' x && leb x b'9' then rest else v

abbrev negative : ℕ → ℤ
negative n = if n == 0 then pos 0 else negsuc (n - 1)

unfoldable pub signed_value : List ℕ → ℤ
unfolding digits_value
signed_value [] = pos 0
signed_value (x ∷ xs) =
    if x == b'-'
    then negative (digits_value 0 xs)
    else if x == b'+'
    then pos (digits_value 0 xs)
    else pos (digits_value 0 (x ∷ xs))

unfoldable pub atoi : List ℕ → ℤ
unfolding signed_value
atoi [] = pos 0
atoi (x ∷ xs) =
    let rest = atoi xs in if x == b' ' || leb 9 x && leb x 13 then rest else signed_value (x ∷ xs)

-- -1 for what is missing.
unfoldable pub to_int : List ℕ → ℤ
unfolding atoi
to_int v = if same_text v [] || same_text v (codes "null") then negsuc 0 else atoi v

unfoldable pub commits_of : List Event → List Event
commits_of [] = []
commits_of (e ∷ es) = let rest = commits_of es in if is_commit e then e ∷ rest else rest

-- Lines 26 to 33: the first difference ends the comparison.
unfoldable pub compare_commits : List Event → List Event → ℕ
compare_commits (a ∷ ref) (b ∷ dut) =
    let rest = compare_commits ref dut in
    if same_text (signature a false) (signature b false) then rest else 1
compare_commits _ _ = 0

-- Lines 37 to 43: a commit of a later cycle comes before the commit of the branch.
unfoldable pub overtaken : Event → List Event → Bool
overtaken b [] = false
overtaken b (c ∷ commits) =
    let rest = overtaken b commits in
    if same_text c.pc b.pc && same_text c.instruction b.instruction
    then false
    else if less (to_int b.normalized_cycle) (to_int c.normalized_cycle)
    then true
    else rest

unfoldable pub legal_reorders : List Event → List Event → ℕ
unfolding overtaken
legal_reorders [] commits = 0
legal_reorders (e ∷ es) commits =
    let rest = legal_reorders es commits in
    if is_branch e && overtaken e commits then rest + 1 else rest

-- The exit code, and the number that is printed if it is 0.
unfoldable pub run_partial_order : List (List ℕ) → List (List ℕ) → ℕ × ℕ
unfolding compare_commits legal_reorders commits_of
run_partial_order ref_lines dut_lines =
    let ref = load_events ref_lines false in
    let dut = load_events dut_lines false in
    (
      if length (commits_of ref) == length (commits_of dut)
          then compare_commits (commits_of ref) (commits_of dut)
          else 1,
      legal_reorders ref (commits_of ref),
    )
