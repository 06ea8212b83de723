-- ===== src/Tb/Json.antt =====
-- tb/differential/trace_json_util.hpp: the events of a trace, one on a line, and the comparison of two
-- traces. A text is the list of its bytes and a file the list of its lines; what is printed is left out,
-- and a comparison gives its exit code.
pub mod Parsing
pub mod Agreement
use boom.Base.{
  ℕ, ◌+◌, Bool, true, false, not, ◌&&◌, ◌||◌, ◌==◌, if◌then◌else◌, List, [], ◌∷◌, ◌++◌, length, map,
  Option, none, some,
}
use mathlib.Core.Option
use boom.Base.Text.{codes, same_text, after_first}

-- What is there, or the empty text.
abbrev pub or_empty : Option (List ℕ) → List ℕ
or_empty (some v) = v
or_empty none = []

-- The text up to a byte, if it is there: `find` from a position and `substr`.
unfoldable pub up_to : ℕ → List ℕ → Option (List ℕ)
up_to c [] = none
up_to c (x ∷ xs) = let rest = up_to c xs in if x == c then some [] else Option.map (◌∷◌ x) rest

-- Lines 37 to 39: up to a comma, a brace or the end.
unfoldable pub up_to_delimiter : List ℕ → List ℕ
up_to_delimiter [] = []
up_to_delimiter (x ∷ xs) =
    let rest = up_to_delimiter xs in if x == b',' || x == b'}' then [] else x ∷ rest

abbrev pub needle_of : List ℕ → List ℕ
needle_of key = b'"' ∷ key ++ b'"' ∷ b':' ∷ []

-- Lines 31 to 39: the value behind its key.
unfoldable pub value_at : List ℕ → List ℕ
unfolding up_to up_to_delimiter
value_at [] = []
value_at (x ∷ rest) = if x == b'"' then or_empty (up_to b'"' rest) else up_to_delimiter (x ∷ rest)

-- The value behind an occurrence of the key.
unfoldable pub value_behind : Option (List ℕ) → List ℕ
unfolding value_at
value_behind (some rest) = value_at rest
value_behind none = []

unfoldable pub value : List ℕ → List ℕ → List ℕ
value line key = value_behind (after_first (needle_of key) line)

pub record Event : Type 0 where
  pub kind : List ℕ
  pub pc : List ℕ
  pub instruction : List ℕ
  pub rd_valid : List ℕ
  pub rd : List ℕ
  pub rd_value : List ℕ
  pub exception : List ℕ
  pub exception_cause : List ℕ
  pub taken : List ℕ
  pub branch_mispredict : List ℕ
  pub normalized_cycle : List ℕ

unfoldable pub parse_event : List ℕ → Event
parse_event line = record {
  kind = value line (codes "event");
  pc = value line (codes "pc");
  instruction = value line (codes "instruction");
  rd_valid = value line (codes "rd_valid");
  rd = value line (codes "rd");
  rd_value = value line (codes "rd_value");
  exception = value line (codes "exception");
  exception_cause = value line (codes "exception_cause");
  taken = value line (codes "taken");
  branch_mispredict = value line (codes "branch_mispredict");
  normalized_cycle = value line (codes "normalized_cycle");
}

abbrev pub is_commit : Event → Bool
is_commit e = same_text e.kind (codes "commit")

abbrev pub is_branch : Event → Bool
is_branch e = same_text e.kind (codes "branch")

unfoldable pub load_events : List (List ℕ) → Bool → List Event
load_events [] commits_only = []
load_events (line ∷ lines) commits_only =
    let rest = load_events lines commits_only in
    let e = parse_event line in
    if is_commit e || not commits_only && is_branch e then e ∷ rest else rest

-- `a + "|" + b`
infixr 65 ◌+|+◌
abbrev pub ◌+|+◌ : List ℕ → List ℕ → List ℕ
a +|+ b = a ++ b'|' ∷ b

abbrev pub or_null : List ℕ → List ℕ → List ℕ
or_null flag v = if same_text flag (codes "true") then v else codes "null"

unfoldable pub signature : Event → Bool → List ℕ
signature e include_cycle =
    let sig = e.kind +|+ e.pc +|+ e.instruction in
    let sig =
      if is_commit e
      then sig
        +|+ e.rd_valid
        +|+ or_null e.rd_valid e.rd
        +|+ or_null e.rd_valid e.rd_value
        +|+ e.exception
        +|+ or_null e.exception e.exception_cause
      else if is_branch e
      then sig +|+ e.taken +|+ e.branch_mispredict
      else sig in
    if include_cycle then sig +|+ e.normalized_cycle else sig

-- Lines 91 to 100: the first difference ends the comparison.
unfoldable pub compare_events : Bool → List Event → List Event → ℕ
compare_events include_cycle (a ∷ ref) (b ∷ dut) =
    let rest = compare_events include_cycle ref dut in
    if same_text (signature a include_cycle) (signature b include_cycle) then rest else 1
compare_events include_cycle _ _ = 0

unfoldable pub compare_loaded : Bool → List Event → List Event → ℕ
unfolding compare_events
compare_loaded include_cycle ref dut =
    if length ref == length dut then compare_events include_cycle ref dut else 1

unfoldable pub compare_files : List (List ℕ) → List (List ℕ) → Bool → Bool → ℕ
unfolding compare_loaded
compare_files ref dut commits_only include_cycle =
    compare_loaded include_cycle (load_events ref commits_only) (load_events dut commits_only)
