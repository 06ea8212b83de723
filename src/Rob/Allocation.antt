-- ===== src/Rob/Allocation.antt =====
-- `rob_allocate` of src/boom_core_step.cpp against a queue of at most ROB_DEPTH entries.
use boom.Base.{
  ◌≡◌, refl, arith, Bool, true, false, not, ◌&&◌, ◌!=◌, ltb, if◌then◌else◌, [], ◌∷◌, ◌++◌, length,
}
use boom.State.{BoomCoreState, RobInternalState}
use boom.Rob.{rob_allocate, is_full, push, leave_init}
use boom.Rob.Queue.{IsValid, contents, size, pushed, length-window, push-IsValid, push_refines}

-- What dispatch offers is taken: it is an operation, nothing is flushed, and there is room.
abbrev pub accepts : BoomCoreState → Bool
accepts s =
    not s.global_flush
    && s.rename.renamed_valid
    && s.rename.renamed_uop.uopc != 0
    && ltb (length (contents s.rob)) 32

room_iff :
    (s : BoomCoreState) → IsValid s.rob → is_full s.rob ≡ not (ltb (length (contents s.rob)) 32)
room_iff s v = ground (arith, length-window s.rob.entries s.rob.head (size s.rob))

-- The buffer with its state machine out of reset.
abbrev started : RobInternalState → RobInternalState
started rob = record rob { state = leave_init rob.state }

started-IsValid : {rob : RobInternalState} → IsValid rob → IsValid (started rob)
started-IsValid v = record {
  entries_length = v.entries_length;
  head_in = v.head_in;
  tail_in = v.tail_in;
  full_meets = v.full_meets;
  live = v.live;
}

allocate_cases {ℓ} :
    (P : RobInternalState → Bool → Type ℓ) (s : BoomCoreState)
    → IsValid s.rob
    → P (started s.rob) false
    → (is_full s.rob ≡ false → P (push (started s.rob) s.rename.renamed_uop) true)
    → P (rob_allocate s).rob (accepts s)
unfolding rob_allocate
allocate_cases P s v kept took = ground (arith, room_iff s v)

-- From a valid buffer, allocation appends the renamed operation behind the entries held exactly if it
-- is an operation, nothing is flushed and fewer than 32 entries are held, and otherwise leaves the
-- entries as they are; the buffer stays valid.
pub rob_allocate_refines :
    (s : BoomCoreState)
    → IsValid s.rob
    → IsValid (rob_allocate s).rob
      × (contents (rob_allocate s).rob ≡ (
          if accepts s
          then contents s.rob ++ pushed s.rob s.rename.renamed_uop ∷ []
          else contents s.rob))
rob_allocate_refines s v =
    allocate_cases
      (λ rob took.
        IsValid rob
        × (contents rob ≡ (
            if took
            then contents s.rob ++ pushed s.rob s.rename.renamed_uop ∷ []
            else contents s.rob)))
      s v (started-IsValid v, refl)
      (λ room. (
        push-IsValid s.rename.renamed_uop (started-IsValid v) room,
        push_refines s.rename.renamed_uop (started-IsValid v) room,
      ))

-- A full buffer refuses: the operation that dispatch offers is no longer valid, so no later stage
-- executes what has no entry.
rob_allocate_refuses :
    (s : BoomCoreState)
    → IsValid s.rob
    → s.global_flush ≡ false
    → length (contents s.rob) ≡ 32
    → (rob_allocate s).rename.renamed_valid ≡ false
unfolding rob_allocate
rob_allocate_refuses s v calm full = ground (arith, room_iff s v)
