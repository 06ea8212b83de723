-- ===== src/Issue/Waiting.antt =====
-- The operations of an issue queue that wait, in the compaction of src/issue.cpp.
use boom.Base.{
  ℕ, zero, suc, ◌-◌, ◌≤◌, ◌<◌, ◌≡◌, ap, ap₂, ◌∙◌, set, set_append, refl, arith, true, List, [], ◌∷◌,
  ◌++◌, length, replicate,
}
use boom.Types.Entries.{IssueSlotEntry, issue_slot_entry_init}
use boom.Issue.{waiting, stays}

pub waiting_cons :
    (x : IssueSlotEntry) (xs : List IssueSlotEntry)
    → stays x ≡ true
    → waiting (x ∷ xs) ≡ x ∷ waiting xs
unfolding waiting
waiting_cons x xs h = ground arith

pub waiting_append : (xs ys : List IssueSlotEntry) → waiting (xs ++ ys) ≡ waiting xs ++ waiting ys
unfolding waiting
waiting_append [] ys = refl
waiting_append (x ∷ xs) ys = ground (arith, waiting_append xs ys)

pub waiting_idempotent : (xs : List IssueSlotEntry) → waiting (waiting xs) ≡ waiting xs
unfolding waiting
waiting_idempotent [] = refl
waiting_idempotent (x ∷ xs) = ground (arith, waiting_idempotent xs)

pub waiting-replicate : (n : ℕ) → waiting (replicate n issue_slot_entry_init) ≡ []
unfolding waiting
waiting-replicate zero = refl
waiting-replicate (suc n) = waiting-replicate n

pub length-waiting : (xs : List IssueSlotEntry) → length (waiting xs) ≤ length xs
unfolding waiting
length-waiting [] = omega arith
length-waiting (x ∷ xs) = ground (arith, length-waiting xs)

-- A slot that waits, written behind those that do and before empty ones.
pub waiting-set_end :
    (kept : List IssueSlotEntry) (slot : IssueSlotEntry)
    → length kept < 8
    → waiting kept ≡ kept
    → stays slot ≡ true
    → waiting (set (kept ++ replicate (8 - length kept) issue_slot_entry_init) (length kept) slot)
      ≡ kept ++ slot ∷ []
waiting-set_end kept slot room same stay =
    ap (λ (n : ℕ). waiting (set (kept ++ replicate n issue_slot_entry_init) (length kept) slot))
      spare
    ∙ ap waiting (
        set_append kept issue_slot_entry_init slot
          (replicate (7 - length kept) issue_slot_entry_init))
    ∙ waiting_append kept (slot ∷ replicate (7 - length kept) issue_slot_entry_init)
    ∙ ap₂ ◌++◌ same (waiting_cons slot _ stay ∙ ap (◌∷◌ slot) (waiting-replicate (7 - length kept)))
  where
    spare : 8 - length kept ≡ suc (7 - length kept)
    spare = omega arith
