-- ===== src/Rob/Queue.antt =====
-- The reorder buffer of src/boom_core_step.cpp as a queue of at most ROB_DEPTH entries, oldest first.
use boom.Base.{
  u8, ℕ, zero, suc, ◌+◌, ◌-◌, ◌%◌, ◌≤◌, ◌<◌, ◌≡◌, inl, inr, Bool-cases, refl, ap, ap₂, ◌∙◌, sym,
  arith, true, false, ◌==◌, ltb, if◌then◌else◌, List, [], ◌∷◌, ◌++◌, length, length-set, get_or,
  set, get_or-set_self, get_or-set_ne,
}
use boom.Types.Uop.{MicroOp}
use boom.Types.Entries.{RobEntry, rob_entry_init}
use boom.State.{RobInternalState}
use boom.Rob.{push, with_rob_idx, is_full}
use boom.Rob.Retire.{pop, head_entry, is_empty}

-- How many entries the buffer holds.
abbrev pub size : RobInternalState → ℕ
size rob = if is_full rob then 32 else (rob.tail + 32 - rob.head) % 32

-- How far the index `i` lies behind the head, going round.
abbrev pub age : RobInternalState → ℕ → ℕ
age rob i = (i + 32 - rob.head) % 32

-- The indices are in range, a full buffer has its tail at its head, and exactly the entries from the
-- head up to the tail are valid.
pub record IsValid (rob : RobInternalState) : Type 0 where
  pub entries_length : length rob.entries ≡ 32
  pub head_in : rob.head < 32
  pub tail_in : rob.tail < 32
  pub full_meets : rob.maybe_full ≡ true → rob.head ≡ rob.tail
  pub live :
      (i : ℕ) → i < 32 → (get_or rob.entries i rob_entry_init).valid ≡ ltb (age rob i) (size rob)

-- The `n` entries from index `h` on, going round.
abbrev pub window : List RobEntry → ℕ → ℕ → List RobEntry
window es h zero = []
window es h (suc n) = get_or es h rob_entry_init ∷ window es ((h + 1) % 32) n

abbrev pub contents : RobInternalState → List RobEntry
contents rob = window rob.entries rob.head (size rob)

pub length-window : (es : List RobEntry) (h n : ℕ) → length (window es h n) ≡ n
length-window es h zero = refl
length-window es h (suc n) = ap suc (length-window es ((h + 1) % 32) n)

-- A write outside a window leaves it as it is.
pub window-set_outside :
    (es : List RobEntry) (h n i : ℕ) (e : RobEntry)
    → h < 32
    → i < 32
    → n ≤ (i + 32 - h) % 32
    → window (set es i e) h n ≡ window es h n
window-set_outside es h zero i e hh hi out = refl
window-set_outside es h (suc n) i e hh hi out =
    ap₂ ◌∷◌ (get_or-set_ne es i h e rob_entry_init (omega arith))
      (window-set_outside es ((h + 1) % 32) n i e (omega arith) hi (omega arith))

-- A write just behind a window extends it.
window-set_behind :
    (es : List RobEntry) (h n i : ℕ) (e : RobEntry)
    → length es ≡ 32
    → h < 32
    → n < 32
    → i ≡ (h + n) % 32
    → window (set es i e) h (suc n) ≡ window es h n ++ e ∷ []
window-set_behind es h zero i e len hh hn at =
    let q : i ≡ h = omega arith in
    ap (λ x. x ∷ []) (rw q (get_or-set_self es h e rob_entry_init (omega arith)))
window-set_behind es h (suc n) i e len hh hn at =
    ap₂ ◌∷◌ (get_or-set_ne es i h e rob_entry_init (omega arith))
      (window-set_behind es ((h + 1) % 32) n i e len (omega arith) (omega arith) (omega arith))

-- What `push` adds.
abbrev pub pushed : RobInternalState → MicroOp → RobEntry
pushed rob u = record rob_entry_init {
  valid = true;
  busy = true;
  exception = u.exception;
  uop = with_rob_idx u rob.tail;
}

pub size-push :
    {rob : RobInternalState} (u : MicroOp)
    → IsValid rob
    → is_full rob ≡ false
    → (size rob < 32)
      × (size (push rob u) ≡ suc (size rob))
      × (rob.tail ≡ (rob.head + size rob) % 32)
unfolding push
size-push u v room = ground arith

pub size-pop :
    {rob : RobInternalState} → IsValid rob → is_empty rob ≡ false → suc (size (pop rob)) ≡ size rob
unfolding pop
size-pop v some = ground arith

live-push :
    {rob : RobInternalState} (u : MicroOp)
    → IsValid rob
    → is_full rob ≡ false
    → (i : ℕ) → i < 32
    → (get_or (push rob u).entries i rob_entry_init).valid
      ≡ ltb (age (push rob u) i) (size (push rob u))
unfolding push
live-push {rob} u v room i hi = elim (Bool-cases (i == rob.tail)) [
  | inl e ↦ ground (
    arith,
    v.live i hi,
    size-push u v room,
    get_or-set_self rob.entries rob.tail (pushed rob u) rob_entry_init,
    v.entries_length,
  )
  | inr ne ↦ ground (
    arith,
    v.live i hi,
    size-push u v room,
    get_or-set_ne rob.entries rob.tail i (pushed rob u) rob_entry_init,
  )
]

-- The entry that `pop` leaves behind at the head.
abbrev popped : RobInternalState → RobEntry
popped rob = record (head_entry rob) { valid = false }

live-pop :
    {rob : RobInternalState}
    → IsValid rob
    → is_empty rob ≡ false
    → (i : ℕ) → i < 32
    → (get_or (pop rob).entries i rob_entry_init).valid ≡ ltb (age (pop rob) i) (size (pop rob))
unfolding pop
live-pop {rob} v some i hi = elim (Bool-cases (i == rob.head)) [
  | inl e ↦ ground (
    arith,
    v.live i hi,
    size-pop v some,
    get_or-set_self rob.entries rob.head (popped rob) rob_entry_init,
    v.entries_length,
  )
  | inr ne ↦ ground (
    arith,
    v.live i hi,
    size-pop v some,
    get_or-set_ne rob.entries rob.head i (popped rob) rob_entry_init,
  )
]

-- Appending an operation to a buffer that is not full keeps the invariant.
pub push-IsValid :
    {rob : RobInternalState} (u : MicroOp)
    → IsValid rob
    → is_full rob ≡ false
    → IsValid (push rob u)
unfolding push
push-IsValid {rob} u v room = record {
  entries_length = length-set rob.entries rob.tail (pushed rob u) ∙ v.entries_length;
  head_in = v.head_in;
  tail_in = omega arith;
  full_meets = ground arith;
  live = live-push u v room;
}

-- Taking the head of a buffer that is not empty keeps the invariant.
pub pop-IsValid : {rob : RobInternalState} → IsValid rob → is_empty rob ≡ false → IsValid (pop rob)
unfolding pop
pop-IsValid {rob} v some = record {
  entries_length = length-set rob.entries rob.head (popped rob) ∙ v.entries_length;
  head_in = omega arith;
  tail_in = v.tail_in;
  full_meets = λ e. cc;
  live = live-pop v some;
}

-- In a buffer that is not full, `push` appends the operation, as a valid and busy entry that knows its
-- index, behind the entries it holds.
pub push_refines :
    {rob : RobInternalState} (u : MicroOp)
    → IsValid rob
    → is_full rob ≡ false
    → contents (push rob u) ≡ contents rob ++ pushed rob u ∷ []
unfolding push
push_refines {rob} u v room =
    let (small, grows, at) = size-push u v room in
    ap (window (push rob u).entries rob.head) grows
    ∙ window-set_behind rob.entries rob.head (size rob) rob.tail (pushed rob u) v.entries_length
        v.head_in small at

-- What is left in the buffer after a `pop`, read from the entries before it.
pub contents-pop :
    {rob : RobInternalState}
    → IsValid rob
    → is_empty rob ≡ false
    → contents (pop rob) ≡ window rob.entries ((rob.head + 1) % 32) (size (pop rob))
unfolding pop
contents-pop {rob} v some =
    ap (λ k. window (pop rob).entries k (size (pop rob))) wrap
    ∙ window-set_outside rob.entries ((rob.head + 1) % 32) (size (pop rob)) rob.head (popped rob)
        (omega arith) v.head_in (ground arith)
  where
    wrap : u8 ((rob.head + 1) % 32) ≡ (rob.head + 1) % 32
    wrap = omega arith

-- From a buffer that is not empty, `pop` removes the oldest entry and leaves the others as they are.
pub pop_refines :
    {rob : RobInternalState}
    → IsValid rob
    → is_empty rob ≡ false
    → contents rob ≡ head_entry rob ∷ contents (pop rob)
pop_refines {rob} v some =
    ap (window rob.entries rob.head) (sym (size-pop v some))
    ∙ ap (◌∷◌ (head_entry rob)) (sym (contents-pop v some))

-- Writing an entry that is as valid as the one it replaces keeps the invariant.
pub set_entry-IsValid :
    {rob : RobInternalState} (i : ℕ) (e : RobEntry)
    → e.valid ≡ (get_or rob.entries i rob_entry_init).valid
    → IsValid rob
    → IsValid (record rob { entries = set rob.entries i e })
set_entry-IsValid {rob} i e same v = record {
  entries_length = length-set rob.entries i e ∙ v.entries_length;
  head_in = v.head_in;
  tail_in = v.tail_in;
  full_meets = v.full_meets;
  live = live-set;
}
  where
    live-set :
        (j : ℕ)
        → j < 32
        → (get_or (set rob.entries i e) j rob_entry_init).valid ≡ ltb (age rob j) (size rob)
    live-set j hj = elim (Bool-cases (i == j)) [
      | inl at ↦
          ground
            (arith, v.live j hj, get_or-set_self rob.entries i e rob_entry_init, v.entries_length)
      | inr ne ↦ ground (arith, v.live j hj, get_or-set_ne rob.entries i j e rob_entry_init)
    ]
