-- ===== src/Rob/Retire/Progress.antt =====
-- When `retire` of src/boom_core_step.cpp has to let the head go.
use boom.Base.{◌+◌, ◌≡◌, refl, ap, sym, ◌∙◌, arith, u64, Bool, true, false, not, ◌&&◌, ◌||◌, ◌∷◌}
use boom.Types.Entries.{RobEntry}
use boom.Pipe.{PipeSignals, write, full}
use boom.State.{BoomCoreState}
use boom.Rob.Retire.{
  head_entry, is_empty, note_store, commit, retire_normal, retire, stores, awaits_load,
  store_request,
}
use boom.Rob.Retire.Order.{contents-pop-note_store}
use boom.Rob.Queue.{IsValid, contents, pop_refines}

-- A load has its data; a store has its address and either was sent or can be.
abbrev pub may_leave : RobEntry → PipeSignals → Bool
may_leave he p =
    not (awaits_load he)
    && (not (stores he) || he.memory_valid && (he.memory_request_sent || not (full p.dmem_req)))

head_valid :
    (s : BoomCoreState) → IsValid s.rob → is_empty s.rob ≡ false → (head_entry s.rob).valid ≡ true
head_valid s v some = ground (arith, v.live s.rob.head v.head_in)

leaves_cases :
    (P : BoomCoreState → Type 0) (s : BoomCoreState) (p : PipeSignals)
    → is_empty s.rob ≡ false
    → (head_entry s.rob).valid ≡ true
    → (head_entry s.rob).busy ≡ false
    → (head_entry s.rob).exception ≡ false
    → may_leave (head_entry s.rob) p ≡ true
    → P (commit s p).0
    → P (commit (note_store s) (record p { dmem_req = write p.dmem_req (store_request s) })).0
    → P (retire s p).0
unfolding retire retire_normal
leaves_cases P s p some alive idle fine may plain sent = ground arith

-- What leaves and is counted.
abbrev Left : BoomCoreState → BoomCoreState → Type 0
Left s t =
    (contents s.rob ≡ head_entry s.rob ∷ contents t.rob)
    × (t.csr.instret ≡ u64 (s.csr.instret + 1))
    × (t.rob.commit_valid ≡ true)

commit-Left :
    (s : BoomCoreState) (p : PipeSignals)
    → IsValid s.rob
    → is_empty s.rob ≡ false
    → Left s (commit s p).0 × Left s (commit (note_store s) p).0
unfolding commit note_store
commit-Left s p v some = (
  (pop_refines v some, refl, refl),
  (
    pop_refines v some ∙ ap (◌∷◌ (head_entry s.rob)) (sym (contents-pop-note_store s v some)),
    refl,
    refl,
  ),
)

-- From a valid buffer that is not empty, a head that was executed without an exception leaves at once
-- and is counted, unless it is a load without its data, or a store without its address or that was not
-- sent while the stream of requests is full.
pub retire_commits :
    (s : BoomCoreState) (p : PipeSignals)
    → IsValid s.rob
    → is_empty s.rob ≡ false
    → (head_entry s.rob).busy ≡ false
    → (head_entry s.rob).exception ≡ false
    → may_leave (head_entry s.rob) p ≡ true
    → (contents s.rob ≡ head_entry s.rob ∷ contents (retire s p).0.rob)
      × ((retire s p).0.csr.instret ≡ u64 (s.csr.instret + 1))
      × ((retire s p).0.rob.commit_valid ≡ true)
retire_commits s p v some idle fine may =
    leaves_cases (Left s) s p some (head_valid s v some) idle fine may (commit-Left s p v some).0
      (commit-Left s _ v some).1
