-- ===== src/Lsu/Issue/Ordering.antt =====
-- Which load src/lsu.cpp sends to memory: at most one in a call, none while another is outstanding, and
-- none past an older store.
use boom.Base.{
  ℕ, zero, suc, ◌+◌, ◌-◌, ◌%◌, ◌<◌, ◌≡◌, ◌≢◌, refl, ap, sym, ◌∙◌, subst, arith, u8, Bool, true,
  false, ◌&&◌, if◌then◌else◌, List, get_or, ◌⊎◌, inl, inr, Bool-cases, if_true, if_false,
}
use boom.Types.Entries.{RobEntry, rob_entry_init}
use boom.Pipe.{PipeSignals, write}
use boom.State.{BoomCoreState}
use boom.Lsu.Issue.{
  store_before, older_store_in_rob, may_issue, try_issue_load, issue_loads, wants_memory, entry_at,
  load_request,
}

-- A store that the reorder buffer holds.
abbrev pub is_held_store : RobEntry → Bool
is_held_store e = e.valid && e.uop.ctrl.is_sta

store_before_step :
    (n : ℕ) (es : List RobEntry) (target idx : ℕ)
    → idx ≢ target
    → store_before (suc n) es target idx ≡ false
    → (is_held_store (get_or es idx rob_entry_init) ≡ false)
      × (store_before n es target (u8 ((idx + 1) % 32)) ≡ false)
unfolding store_before
store_before_step n es target idx ne h = ground arith

store_before_sound :
    (n : ℕ) (es : List RobEntry) (target idx k : ℕ)
    → idx < 32
    → target < 32
    → (target + 32 - idx) % 32 < n
    → k < (target + 32 - idx) % 32
    → store_before n es target idx ≡ false
    → is_held_store (get_or es ((idx + k) % 32) rob_entry_init) ≡ false
store_before_sound zero es target idx k hi ht hn hk h = absurd (omega arith)
store_before_sound (suc n) es target idx zero hi ht hn hk h =
    let here : (idx + 0) % 32 ≡ idx = omega arith in
    rw here (store_before_step n es target idx (omega arith) h).0
store_before_sound (suc n) es target idx (suc k) hi ht hn hk h =
    let there : (idx + suc k) % 32 ≡ (u8 ((idx + 1) % 32) + k) % 32 = omega arith in
    rw there (
      store_before_sound n es target (u8 ((idx + 1) % 32)) k (omega arith) ht (omega arith)
        (omega arith) (store_before_step n es target idx (omega arith) h).1)

issue_or_not :
    (s : BoomCoreState) (p : PipeSignals) (j : ℕ)
    → (try_issue_load s p j ≡ (s, p)) ⊎ (may_issue s p j ≡ true)
unfolding try_issue_load
issue_or_not s p j = elim (Bool-cases (may_issue s p j)) [ inl e ↦ inr e | inr e ↦ inl (rw e) ]

pub pending_after :
    (s : BoomCoreState) (p : PipeSignals) (j : ℕ)
    → may_issue s p j ≡ true
    → (try_issue_load s p j).0.lsu.load_response_pending ≡ true
unfolding try_issue_load
pending_after s p j e = rw e

pub issue_loads_step :
    (n i : ℕ) (s : BoomCoreState) (p : PipeSignals) (t : BoomCoreState × PipeSignals)
    → try_issue_load s p (u8 ((s.rob.head + i) % 32)) ≡ t
    → issue_loads (suc n) i s p
      ≡ (if t.0.lsu.load_response_pending then t else issue_loads n (i + 1) t.0 t.1)
unfolding issue_loads
issue_loads_step n i s p t e =
    ap
      (λ (u : BoomCoreState × PipeSignals).
        if u.0.lsu.load_response_pending then u else issue_loads n (i + 1) u.0 u.1)
      e

-- A load that may be sent finds none outstanding.
pub may_issue_calm :
    (s : BoomCoreState) (p : PipeSignals) (j : ℕ)
    → may_issue s p j ≡ true
    → s.lsu.load_response_pending ≡ false
unfolding may_issue
may_issue_calm s p j m = ground arith

abbrev Outcome : ℕ → ℕ → BoomCoreState → PipeSignals → Type 0
Outcome n i s p =
    (issue_loads n i s p ≡ (s, p))
    ⊎ ((j : ℕ) × (j < 32) × (may_issue s p j ≡ true) × (issue_loads n i s p ≡ try_issue_load s p j))

issue_calm :
    (n i : ℕ) (s : BoomCoreState) (p : PipeSignals)
    → issue_loads (suc n) i s p ≡ issue_loads n (i + 1) s p
    → Outcome n (i + 1) s p
    → Outcome (suc n) i s p
issue_calm n i s p e (inl q) = inl (e ∙ q)
issue_calm n i s p e (inr (j, h, m, q)) = inr (j, h, m, e ∙ q)

issue_later :
    (n i : ℕ) (s : BoomCoreState) (p : PipeSignals)
    → issue_loads (suc n) i s p
      ≡ (if s.lsu.load_response_pending then (s, p) else issue_loads n (i + 1) s p)
    → Outcome n (i + 1) s p
    → Outcome (suc n) i s p
issue_later n i s p e again = elim (Bool-cases s.lsu.load_response_pending) [
  | inl busy ↦ inl (e ∙ if_true _ _ busy)
  | inr calm ↦ issue_calm n i s p (e ∙ if_false _ _ calm) again
]

-- The loop over the buffer sends nothing and changes nothing, or it does exactly what one call of
-- `try_issue_load` does, for an entry that may be sent.
pub issue_loads_one : (n i : ℕ) (s : BoomCoreState) (p : PipeSignals) → Outcome n i s p
unfolding issue_loads
issue_loads_one zero i s p = inl refl
issue_loads_one (suc n) i s p =
    let j = u8 ((s.rob.head + i) % 32) in
    let again = issue_loads_one n (i + 1) s p in
    elim (issue_or_not s p j) [
      | inl e ↦ issue_later n i s p (issue_loads_step n i s p (s, p) e) again
      | inr m ↦
          inr (
            j,
            omega arith,
            m,
            issue_loads_step n i s p _ refl ∙ if_true _ _ (pending_after s p j m),
          )
    ]

-- A load that may be sent waits for no other: none is outstanding, and no valid store stands in the
-- buffer between the head and the load.
pub may_issue_safe :
    (s : BoomCoreState) (p : PipeSignals) (j : ℕ)
    → s.rob.head < 32
    → j < 32
    → may_issue s p j ≡ true
    → (wants_memory (entry_at s j) ≡ true)
      × (s.lsu.load_response_pending ≡ false)
      × ((k : ℕ)
          → k < (j + 32 - s.rob.head) % 32
          → is_held_store (entry_at s ((s.rob.head + k) % 32)) ≡ false)
unfolding may_issue older_store_in_rob
may_issue_safe s p j hh hj m = (
  ground arith,
  ground arith,
  λ k hk. store_before_sound 32 s.rob.entries j s.rob.head k hh hj (omega arith) hk (ground arith),
)

-- One load was sent: what held before it, and what is new after it.
pub record Sent (s : BoomCoreState) (p : PipeSignals) (t : BoomCoreState × PipeSignals)
    : Type 0 where
  pub entry : ℕ
  pub in_range : entry < 32
  pub wanted : wants_memory (entry_at s entry) ≡ true
  pub alone : s.lsu.load_response_pending ≡ false
  pub no_older_store :
      (k : ℕ)
      → k < (entry + 32 - s.rob.head) % 32
      → is_held_store (entry_at s ((s.rob.head + k) % 32)) ≡ false
  pub requested : t.1.dmem_req ≡ write p.dmem_req (load_request s entry)
  pub outstanding : t.0.lsu.load_response_pending ≡ true
  pub remembered : t.0.lsu.pending_load_transaction_id ≡ s.lsu.next_transaction_id

try_issue_load-Sent :
    (s : BoomCoreState) (p : PipeSignals) (j : ℕ)
    → s.rob.head < 32
    → j < 32
    → may_issue s p j ≡ true
    → Sent s p (try_issue_load s p j)
unfolding try_issue_load
try_issue_load-Sent s p j hh hj m =
    let (w, a, o) = may_issue_safe s p j hh hj m in
    record {
      entry = j;
      in_range = hj;
      wanted = w;
      alone = a;
      no_older_store = o;
      requested = rw m;
      outstanding = rw m;
      remembered = rw m;
    }

-- However many rounds the loop over the buffer has, it changes nothing, or it sends exactly one load:
-- an entry that waits for memory, while no other load is outstanding, with no store held between the
-- head of the buffer and the load. That load is outstanding afterwards.
pub issue_loads_ordered :
    (n i : ℕ) (s : BoomCoreState) (p : PipeSignals)
    → s.rob.head < 32
    → (issue_loads n i s p ≡ (s, p)) ⊎ Sent s p (issue_loads n i s p)
issue_loads_ordered n i s p hh = elim (issue_loads_one n i s p) [
  | inl e ↦ inl e
  | inr (j, hj, m, e) ↦ inr (subst (Sent s p) (sym e) (try_issue_load-Sent s p j hh hj m))
]
