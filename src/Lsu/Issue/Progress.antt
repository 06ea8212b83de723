-- ===== src/Lsu/Issue/Progress.antt =====
-- A load that may go to memory makes src/lsu.cpp send one.
use boom.Base.{
  ℕ, zero, suc, ◌+◌, ◌-◌, ◌%◌, ◌<◌, ◌≤◌, ◌≡◌, refl, ap, ◌∙◌, arith, u8, true, false, Bool-cases,
  inl, inr, if_true, if_false,
}
use boom.Pipe.{PipeSignals}
use boom.State.{BoomCoreState}
use boom.Lsu.Issue.{may_issue, try_issue_load, issue_loads}
use boom.Lsu.Issue.Ordering.{issue_loads_step, pending_after, may_issue_calm}

skipped :
    (s : BoomCoreState) (p : PipeSignals) (j : ℕ)
    → may_issue s p j ≡ false
    → try_issue_load s p j ≡ (s, p)
unfolding try_issue_load
skipped s p j e = rw e

IsPending : BoomCoreState × PipeSignals → Type 0
IsPending t = t.0.lsu.load_response_pending ≡ true

-- The loop reaches the entry that lies `k` behind the head.
reaches :
    (n i k : ℕ) (s : BoomCoreState) (p : PipeSignals)
    → i ≤ k
    → k < i + n
    → may_issue s p (u8 ((s.rob.head + k) % 32)) ≡ true
    → IsPending (issue_loads n i s p)
unfolding IsPending
reaches zero i k s p lo hi m = absurd (omega arith)
reaches (suc n) i k s p lo hi m =
    let j = u8 ((s.rob.head + i) % 32) in
    elim (Bool-cases (may_issue s p j)) [
      | inl now ↦
          ap (λ (t : BoomCoreState × PipeSignals). t.0.lsu.load_response_pending)
            (issue_loads_step n i s p _ refl ∙ if_true _ _ (pending_after s p j now))
          ∙ pending_after s p j now
      | inr not_now ↦
          ap (λ (t : BoomCoreState × PipeSignals). t.0.lsu.load_response_pending)
            (issue_loads_step n i s p (s, p) (skipped s p j not_now)
              ∙ if_false _ _ (may_issue_calm s p _ m))
          ∙ reaches n (i + 1) k s p (later i k lo not_now m) (omega arith) m
    ]
  where
    later :
        (i k : ℕ)
        → i ≤ k
        → may_issue s p (u8 ((s.rob.head + i) % 32)) ≡ false
        → may_issue s p (u8 ((s.rob.head + k) % 32)) ≡ true
        → i + 1 ≤ k
    later i k lo a b = grind arith

-- With the head in range, if any of the 32 entries of the buffer may be sent, the loop sends a load:
-- afterwards one is outstanding.
pub issue_loads_progress :
    (j : ℕ) (s : BoomCoreState) (p : PipeSignals)
    → j < 32
    → s.rob.head < 32
    → may_issue s p j ≡ true
    → (issue_loads 32 0 s p).0.lsu.load_response_pending ≡ true
unfolding IsPending
issue_loads_progress j s p hj hh m =
    reaches 32 0 ((j + 32 - s.rob.head) % 32) s p (omega arith) (omega arith) (at_entry ∙ m)
  where
    at_entry : may_issue s p (u8 ((s.rob.head + (j + 32 - s.rob.head) % 32) % 32)) ≡ may_issue s p j
    at_entry = ap (may_issue s p) (omega arith)
