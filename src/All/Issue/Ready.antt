-- ===== src/All/Issue/Ready.antt =====
-- The choice of `issue_module` in src/boom_all.cpp, lines 1204 to 1232, as the first ready operations.
use boom.Base.{
  ℕ, zero, suc, ◌+◌, ◌-◌, ◌≡◌, ◌<◌, ◌≤◌, append_nil, length-append, refl, ap, ◌∙◌, sym, arith, Bool,
  true, false, ◌&&◌, ltb, Bool-cases, inl, inr, if◌then◌else◌, List, [], ◌∷◌, ◌++◌, length, if_true,
  if_false,
}
use boom.Types.Uop.{MicroOp}
use boom.Types.Entries.{IssueSlotEntry, BranchUpdate}
use boom.State.{RenameState, AluResult}
use boom.All.Queue.{iq_is_ready}
use boom.All.Issue.{IssueModuleState, issue_slot, issue_slots, issue_all, issue_module, prepared}

-- The operations of the ready slots, lowest slot first.
pub ready_uops : List IssueSlotEntry → List MicroOp
ready_uops [] = []
ready_uops (e ∷ es) = let rest = ready_uops es in if iq_is_ready e then e.uop ∷ rest else rest

pub take {ℓ} : {A : Type ℓ} → ℕ → List A → List A
take zero xs = []
take (suc n) [] = []
take (suc n) (x ∷ xs) = x ∷ take n xs

module _ {ℓ} {A : Type ℓ} where
  append_assoc : (xs ys zs : List A) → (xs ++ ys) ++ zs ≡ xs ++ (ys ++ zs)
  append_assoc [] ys zs = refl
  append_assoc (x ∷ xs) ys zs = ap (λ r. x ∷ r) (append_assoc xs ys zs)

  length-take : (n : ℕ) (xs : List A) → length (take n xs) ≤ n
  unfolding take
  length-take zero xs = omega arith
  length-take (suc n) [] = omega arith
  length-take (suc n) (x ∷ xs) = ground (arith, length-take n xs)

  -- Taking a few, and what is then missing from another list, is taking from both.
  take_then :
      (n k : ℕ) (xs ys : List A)
      → length (take n xs) + k ≡ n
      → take n xs ++ take k ys ≡ take n (xs ++ ys)
  unfolding take
  take_then zero k xs ys h = let none_left : k ≡ 0 = omega arith in rw none_left refl
  take_then (suc n) k [] ys h = let all : k ≡ suc n = omega arith in rw all refl
  take_then (suc n) k (x ∷ xs) ys h = ap (λ r. x ∷ r) (take_then n k xs ys (omega arith))

slot_ready :
    (e : IssueSlotEntry) (issued : List MicroOp)
    → length issued < 3
    → iq_is_ready e ≡ true
    → issue_slot e issued ≡ (record e { granted = true; request = false }, issued ++ e.uop ∷ [])
unfolding issue_slot
slot_ready e issued room ready =
    if_true {b = ltb (length issued) 3 && iq_is_ready e} _ _ (ground (arith, ready))

slot_waits :
    (e : IssueSlotEntry) (issued : List MicroOp)
    → ltb (length issued) 3 && iq_is_ready e ≡ false
    → issue_slot e issued ≡ (e, issued)
unfolding issue_slot
slot_waits e issued waits = if_false {b = ltb (length issued) 3 && iq_is_ready e} _ _ waits

-- The loop over one queue adds the first ready operations, as many as lanes are left.
issued-slots :
    (es : List IssueSlotEntry) (issued : List MicroOp) (k : ℕ)
    → length issued + k ≡ 3
    → (issue_slots es issued).1 ≡ issued ++ take k (ready_uops es)
unfolding issue_slots take ready_uops
issued-slots [] issued zero h = sym (append_nil issued)
issued-slots [] issued (suc k) h = sym (append_nil issued)
issued-slots (e ∷ es) issued zero h =
    rw (slot_waits e issued (ground (arith, h))) (issued-slots es issued zero h)
issued-slots (e ∷ es) issued (suc k) h = elim (Bool-cases (iq_is_ready e)) [
  | inl ready ↦ rw (slot_ready e issued (omega arith) ready) (
      issued-slots es (issued ++ e.uop ∷ []) k
        (rw (length-append issued (e.uop ∷ [])) (omega arith))
      ∙ append_assoc issued (e.uop ∷ []) (take k (ready_uops es))
      ∙ ap (λ r. issued ++ take (suc k) r) (sym (if_true {b = iq_is_ready e} _ _ ready)))
  | inr waits ↦ rw (slot_waits e issued (ground (arith, waits))) (
      issued-slots es issued (suc k) h
      ∙ ap (λ r. issued ++ take (suc k) r) (sym (if_false {b = iq_is_ready e} _ _ waits)))
]

-- One queue more behind the operations chosen so far.
issued-next :
    (es : List IssueSlotEntry) (ready : List MicroOp)
    → (issue_slots es (take 3 ready)).1 ≡ take 3 (ready ++ ready_uops es)
issued-next es ready =
    let k : ℕ = 3 - length (take 3 ready) in
    let room : length (take 3 ready) + k ≡ 3 = ground (arith, length-take 3 ready) in
    issued-slots es (take 3 ready) k room ∙ take_then 3 k ready (ready_uops es) room

issued-queues :
    (mem alu fpu : List IssueSlotEntry)
    → (issue_slots fpu (issue_slots alu (issue_slots mem []).1).1).1
      ≡ take 3 (ready_uops mem ++ (ready_uops alu ++ ready_uops fpu))
unfolding take
issued-queues mem alu fpu = rw (issued-next mem []) (
    rw (issued-next alu (ready_uops mem)) (
      issued-next fpu (ready_uops mem ++ ready_uops alu)
      ∙ ap (λ r. take 3 r) (append_assoc (ready_uops mem) (ready_uops alu) (ready_uops fpu))))

module _ (s : IssueModuleState) (r : RenameState) (res : AluResult) (b : BranchUpdate) where
  -- The ready operations when the choice begins: memory, integer unit, floating point.
  abbrev pub all_ready : List MicroOp
  all_ready =
      let p = prepared s r res b in
      ready_uops p.mem_iq.entries ++ (ready_uops p.alu_iq.entries ++ ready_uops p.fpu_iq.entries)

  prepared-issued : (prepared s r res b).issued_uops ≡ []
  unfolding prepared
  prepared-issued = ground arith

  -- A cycle that is not flushed issues the first three of the ready operations, those of the memory
  -- queue before those of the integer queue and these before the floating point ones, in each queue by
  -- slot, and fewer only if fewer are ready; a flushed one issues none.
  pub issue_module-issued :
      (global_flush : Bool)
      → (issue_module s r res b global_flush).issued_uops
        ≡ (if global_flush then [] else take 3 all_ready)
  unfolding issue_module issue_all
  issue_module-issued true = refl
  issue_module-issued false =
      let p = prepared s r res b in
      ap
        (λ (i : List MicroOp).
          (issue_slots p.fpu_iq.entries
            (issue_slots p.alu_iq.entries (issue_slots p.mem_iq.entries i).1).1).1)
        prepared-issued
      ∙ issued-queues p.mem_iq.entries p.alu_iq.entries p.fpu_iq.entries
