-- ===== src/All/Queue/Choice.antt =====
-- Which slot the issue queue of src/boom_all.cpp chooses.
use boom.Base.{
  ℕ, zero, suc, ◌+◌, ◌<◌, ◌≡◌, arith, subst, sym, true, false, List, [], ◌∷◌, length, get_or,
  Option, none, some, Bool-cases, inl, inr, if_true, if_false,
}
use boom.Types.Entries.{IssueSlotEntry, issue_slot_entry_init}
use boom.State.{IssueQueueState}
use boom.All.Queue.{iq_is_ready, select_from, iq_select}

abbrev slot : List IssueSlotEntry → ℕ → IssueSlotEntry
slot es k = get_or es k issue_slot_entry_init

-- No slot is ready, or the slot `j` is the first one that is, counted from `i` on.
abbrev pub IsFirstReady : List IssueSlotEntry → ℕ → Option ℕ → Type 0
IsFirstReady es i none = (k : ℕ) → k < length es → iq_is_ready (slot es k) ≡ false
IsFirstReady es i (some j) =
    (k : ℕ) × (j ≡ i + k)
    × (k < length es)
    × (iq_is_ready (slot es k) ≡ true)
    × ((m : ℕ) → m < k → iq_is_ready (slot es m) ≡ false)

before_none :
    (e : IssueSlotEntry) (es : List IssueSlotEntry)
    → iq_is_ready e ≡ false
    → ((k : ℕ) → k < length es → iq_is_ready (slot es k) ≡ false)
    → (k : ℕ) → k < suc (length es)
    → iq_is_ready (slot (e ∷ es) k) ≡ false
before_none e es idle a zero h = idle
before_none e es idle a (suc k) h = a k (omega arith)

before_some :
    (e : IssueSlotEntry) (es : List IssueSlotEntry) (k : ℕ)
    → iq_is_ready e ≡ false
    → ((m : ℕ) → m < k → iq_is_ready (slot es m) ≡ false)
    → (m : ℕ) → m < suc k
    → iq_is_ready (slot (e ∷ es) m) ≡ false
before_some e es k idle a zero h = idle
before_some e es k idle a (suc m) h = a m (omega arith)

later :
    (e : IssueSlotEntry) (es : List IssueSlotEntry) (i : ℕ) (o : Option ℕ)
    → iq_is_ready e ≡ false
    → IsFirstReady es (i + 1) o
    → IsFirstReady (e ∷ es) i o
later e es i none idle a = before_none e es idle a
later e es i (some j) idle (k, at, inside, ready, first) =
    (suc k, omega arith, omega arith, ready, before_some e es k idle first)

select_from-IsFirstReady : (es : List IssueSlotEntry) (i : ℕ) → IsFirstReady es i (select_from es i)
unfolding select_from
select_from-IsFirstReady [] i = λ k h. absurd (omega arith)
select_from-IsFirstReady (e ∷ es) i =
    let again = select_from-IsFirstReady es (i + 1) in
    elim (Bool-cases (iq_is_ready e)) [
      | inl ready ↦
          subst (IsFirstReady (e ∷ es) i) (sym (if_true (some i) (select_from es (i + 1)) ready))
            (zero, omega arith, omega arith, ready, λ m h. absurd (omega arith))
      | inr idle ↦
          subst (IsFirstReady (e ∷ es) i) (sym (if_false (some i) (select_from es (i + 1)) idle))
            (later e es i (select_from es (i + 1)) idle again)
    ]

-- The choice answers with the lowest slot that is ready, and with none exactly if no slot is.
iq_select-IsFirstReady : (iq : IssueQueueState) → IsFirstReady iq.entries 0 (iq_select iq)
unfolding iq_select
iq_select-IsFirstReady iq = select_from-IsFirstReady iq.entries 0
