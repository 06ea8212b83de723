-- ===== src/Lsu/Validity.antt =====
-- src/lsu.cpp writes entries of the reorder buffer, and never whether they are valid; of the core it
-- writes its own state and the integer registers besides.
use boom.Base.{
  ℕ, zero, suc, ◌+◌, ◌%◌, ◌≡◌, refl, arith, if_either, Bool-cases, inl, inr, List, [], ◌∷◌, u8,
}
use boom.Types.Entries.{RobEntry}
use boom.Types.Messages.{DmemResponse}
use boom.Pipe.{PipeSignals}
use boom.State.{BoomCoreState, AluResult, LsuState}
use boom.Rob.Queue.{IsValid, set_entry-IsValid}
use boom.Lsu.{lsu_module, read_response, accept_response, finish_load, enqueue, clear_lsu_queues}
use boom.Lsu.Enqueue.{enqueue_store, enqueue_load, store_entry, load_entry, push_store, push_load}
use boom.Lsu.Issue.{may_issue, issue_loads, try_issue_load, entry_at, set_entry}

finish_load_valid : (resp : DmemResponse) (e : RobEntry) → (finish_load resp e).valid ≡ e.valid
unfolding finish_load
finish_load_valid resp e = ground arith

-- A property of the state that writes of the module's own kind keep.
module _ (P : BoomCoreState → Type 0)
    (writes : (s : BoomCoreState) (i : ℕ) (e : RobEntry) (rf : List ℕ) (l : LsuState)
      → e.valid ≡ (entry_at s i).valid
      → P s
      → P (record (set_entry s i e) { int_rf = rf; lsu = l }))
    (own : (s : BoomCoreState) (l : LsuState) → P s → P (record s { lsu = l })) where
  accept_response_keeps :
      (resp : DmemResponse) (s : BoomCoreState) → P s → P (accept_response resp s)
  unfolding accept_response
  accept_response_keeps resp s v =
      if_either P _
        (if_either P _ (writes s s.lsu.pending_load_rob_idx _ _ _ (finish_load_valid resp _) v)
          (own s _ v))
        v

  read_response_keeps : (s : BoomCoreState) (q : List DmemResponse) → P s → P (read_response s q).0
  unfolding read_response
  read_response_keeps s [] v = v
  read_response_keeps s (resp ∷ q) v = accept_response_keeps resp s v

  enqueue_store_keeps : (s : BoomCoreState) (r : AluResult) (i : ℕ) → P s → P (enqueue_store s r i)
  unfolding enqueue_store store_entry
  enqueue_store_keeps s r i v =
      writes s i (store_entry r (entry_at s i)) s.int_rf (push_store r s.lsu) refl v

  enqueue_load_keeps : (s : BoomCoreState) (r : AluResult) (i : ℕ) → P s → P (enqueue_load s r i)
  unfolding enqueue_load load_entry
  enqueue_load_keeps s r i v =
      writes s i (load_entry r (entry_at s i)) s.int_rf (push_load r s.lsu) refl v

  enqueue_keeps : (s : BoomCoreState) → P s → P (enqueue s)
  unfolding enqueue
  enqueue_keeps s v = ground (
    arith,
    enqueue_store_keeps s s.execute.alu_result s.execute.alu_result.uop.queue.rob_idx v,
    enqueue_load_keeps s s.execute.alu_result s.execute.alu_result.uop.queue.rob_idx v,
  )

  issue_one_keeps : (s : BoomCoreState) (p : PipeSignals) (i : ℕ) → P s → P (try_issue_load s p i).0
  unfolding try_issue_load
  issue_one_keeps s p i v = elim (Bool-cases (may_issue s p i)) [
    | inl e ↦ rw e (writes s i _ _ _ refl v)
    | inr e ↦ rw e v
  ]

  issue_loads_keeps :
      (n i : ℕ) (s : BoomCoreState) (p : PipeSignals) → P s → P (issue_loads n i s p).0
  unfolding issue_loads
  issue_loads_keeps zero i s p v = v
  issue_loads_keeps (suc n) i s p v =
      let idx = u8 ((s.rob.head + i) % 32) in
      let w = issue_one_keeps s p idx v in
      let rest =
        issue_loads_keeps n (i + 1) (try_issue_load s p idx).0 (try_issue_load s p idx).1 w in
      elim (Bool-cases (try_issue_load s p idx).0.lsu.load_response_pending) [
        | inl e ↦ rw e w
        | inr e ↦ rw e rest
      ]

  -- What the module's writes keep, the module keeps.
  pub lsu_module_keeps : (s : BoomCoreState) (p : PipeSignals) → P s → P (lsu_module s p).0
  unfolding lsu_module
  lsu_module_keeps s p v =
      if_either (λ (t : BoomCoreState × PipeSignals). P t.0) s.global_flush
        (own s (clear_lsu_queues s.lsu) v)
        (issue_loads_keeps 32 0 (enqueue (read_response s p.dmem_resp).0)
          (record p { dmem_resp = (read_response s p.dmem_resp).1 })
          (enqueue_keeps (read_response s p.dmem_resp).0 (read_response_keeps s p.dmem_resp v)))

pub lsu_module-IsValid :
    (s : BoomCoreState) (p : PipeSignals) → IsValid s.rob → IsValid (lsu_module s p).0.rob
lsu_module-IsValid =
    lsu_module_keeps (λ t. IsValid t.rob) (λ s i e rf l same v. set_entry-IsValid i e same v)
      (λ s l v. v)
