-- ===== src/Rename/FreeList.antt =====
-- The free list of src/rename.cpp and src/boom_core_step.cpp as a row of physical registers, whose tail
-- stands one place before its end from reset on.
use boom.Base.{
  ℕ, zero, suc, ◌+◌, ◌-◌, ◌%◌, ◌≤◌, ◌<◌, ◌≡◌, refl, ap, ap₂, sym, ◌∙◌, subst, if_true, lt→ltb,
  arith, u8, false, List, [], ◌∷◌, ◌++◌, length, length-set, get_or, set, get_or-set_self,
  get_or-set_ne,
}
use boom.State.{RenameFreeListState, rename_free_list_state_init, count_up}
use boom.Rename.{allocate, next_free}
use boom.Rob.Retire.{release}

-- The `n` registers from index `h` on, going round.
abbrev pub ring : List ℕ → ℕ → ℕ → List ℕ
ring xs h zero = []
ring xs h (suc n) = get_or xs h 0 ∷ ring xs ((h + 1) % 52) n

-- The registers that are still to be allocated, the next one first.
abbrev pub free : RenameFreeListState → List ℕ
free fl = ring fl.free_list fl.head fl.count

-- The list is whole, its indices are in range, and the tail stands one place before the end of the
-- registers, as the constructor sets it.
pub record IsLagging (fl : RenameFreeListState) : Type 0 where
  pub list_length : length fl.free_list ≡ 52
  pub head_in : fl.head < 52
  pub count_in : fl.count ≤ 52
  pub tail_at : fl.tail ≡ (fl.head + fl.count + 51) % 52

pub reset-IsLagging : IsLagging rename_free_list_state_init
reset-IsLagging = record {
  list_length = refl;
  head_in = omega arith;
  count_in = omega arith;
  tail_at = refl;
}

pub but_last : List ℕ → List ℕ
but_last [] = []
but_last (x ∷ []) = []
but_last (x ∷ y ∷ xs) = x ∷ but_last (y ∷ xs)

but_last-ring : (xs : List ℕ) (h n : ℕ) → but_last (ring xs h (suc n)) ≡ ring xs h n
unfolding but_last
but_last-ring xs h zero = refl
but_last-ring xs h (suc n) = ap (λ r. get_or xs h 0 ∷ r) (but_last-ring xs ((h + 1) % 52) n)

-- A write to the last of the `n + 1` registers from `h` on, seen together with the place behind them.
ring-set_last :
    (xs : List ℕ) (h n i v : ℕ)
    → length xs ≡ 52
    → h < 52
    → n < 51
    → i ≡ (h + n) % 52
    → ring (set xs i v) h (suc (suc n)) ≡ ring xs h n ++ v ∷ get_or xs ((h + n + 1) % 52) 0 ∷ []
ring-set_last xs h zero i v len hh hn at =
    let q : i ≡ h = omega arith in
    let next : (h + 0 + 1) % 52 ≡ (h + 1) % 52 = omega arith in
    ap₂ (λ (x y : ℕ). x ∷ y ∷ []) (rw q (get_or-set_self xs h v 0 (omega arith)))
      (get_or-set_ne xs i ((h + 1) % 52) v 0 (omega arith)
        ∙ ap (λ (k : ℕ). get_or xs k 0) (sym next))
ring-set_last xs h (suc n) i v len hh hn at =
    let next : ((h + 1) % 52 + n + 1) % 52 ≡ (h + suc n + 1) % 52 = omega arith in
    ap₂ ◌∷◌ (get_or-set_ne xs i h v 0 (omega arith)) (
      ring-set_last xs ((h + 1) % 52) n i v len (omega arith) (omega arith) (omega arith)
      ∙ ap (λ (k : ℕ). ring xs ((h + 1) % 52) n ++ v ∷ get_or xs k 0 ∷ []) next)

-- From a list whose tail is one place before the end, as after reset, an allocation takes the oldest
-- free register, leaves the rest in order and keeps the list so.
pub allocate_refines :
    {fl : RenameFreeListState}
    → IsLagging fl
    → 0 < fl.count
    → (free fl ≡ next_free fl ∷ free (allocate fl)) × IsLagging (allocate fl)
unfolding allocate
allocate_refines {fl} v some = (
  ap (ring fl.free_list fl.head) less
      ∙ ap (λ (k : ℕ). next_free fl ∷ ring fl.free_list k (u8 (fl.count + 255))) wrap,
  record {
    list_length = v.list_length;
    head_in = omega arith;
    count_in = omega arith;
    tail_at = omega arith;
  },
)
  where
    less : fl.count ≡ suc (u8 (fl.count + 255))
    less = omega arith

    wrap : (fl.head + 1) % 52 ≡ u8 ((fl.head + 1) % 52)
    wrap = omega arith

-- The list after a release that finds room.
abbrev released : RenameFreeListState → ℕ → RenameFreeListState
released fl p = record fl {
  busy_table = set fl.busy_table p false;
  free_list = set fl.free_list fl.tail p;
  tail = u8 ((fl.tail + 1) % 52);
  count = u8 (fl.count + 1);
}

release_lem : (fl : RenameFreeListState) (p : ℕ) → fl.count < 52 → release fl p ≡ released fl p
unfolding release
release_lem fl p room = if_true _ _ (lt→ltb fl.count 52 room)

-- A release into a list whose tail is one place before the end, as after reset, that has a free register
-- and room loses the last free one: the released register stands in its place, and whatever the array
-- has behind it is free too. The list stays so.
pub release_refines :
    {fl : RenameFreeListState} (p : ℕ)
    → IsLagging fl
    → 0 < fl.count
    → fl.count < 52
    → (free (release fl p)
        ≡ but_last (free fl) ++ p ∷ get_or fl.free_list ((fl.head + fl.count) % 52) 0 ∷ [])
      × IsLagging (release fl p)
release_refines {fl} p v some room =
    subst (λ t. (free t ≡ after) × IsLagging t) (sym (release_lem fl p room))
      (
        ap (ring (set fl.free_list fl.tail p) fl.head) more
            ∙ ring-set_last fl.free_list fl.head n fl.tail p v.list_length v.head_in (omega arith)
                (omega arith)
            ∙ ap₂ (λ (xs : List ℕ) (k : ℕ). xs ++ p ∷ get_or fl.free_list k 0 ∷ [])
                (sym (but_last-ring fl.free_list fl.head n)
                  ∙ ap (λ (k : ℕ). but_last (ring fl.free_list fl.head k)) less)
                (omega arith),
        record {
          list_length = length-set fl.free_list fl.tail p ∙ v.list_length;
          head_in = v.head_in;
          count_in = omega arith;
          tail_at = omega arith;
        },
      )
  where
    n : ℕ
    n = fl.count - 1

    after : List ℕ
    after = but_last (free fl) ++ p ∷ get_or fl.free_list ((fl.head + fl.count) % 52) 0 ∷ []

    less : suc n ≡ fl.count
    less = omega arith

    more : u8 (fl.count + 1) ≡ suc (suc n)
    more = omega arith

-- `n` allocations in a row.
pub allocate_many : ℕ → RenameFreeListState → RenameFreeListState
allocate_many zero fl = fl
allocate_many (suc n) fl = allocate_many n (allocate fl)

-- What the constructor makes, with the first `n` registers allocated.
record IsFresh (n : ℕ) (fl : RenameFreeListState) : Type 0 where
  all : fl.free_list ≡ count_up 0 52
  head_at : fl.head ≡ (n + 1) % 52
  tail_at : fl.tail ≡ 51
  count_at : fl.count + n ≡ 51

allocate-IsFresh :
    (k n m : ℕ) {fl : RenameFreeListState}
    → m ≡ k + n
    → m ≤ 51
    → IsFresh n fl
    → IsFresh m (allocate_many k fl)
unfolding allocate_many allocate
allocate-IsFresh zero n m e h v = record {
  all = v.all;
  head_at = omega arith;
  tail_at = v.tail_at;
  count_at = omega arith;
}
allocate-IsFresh (suc k) n m e h v =
    allocate-IsFresh k (suc n) m (omega arith) h
      (record { all = v.all; head_at = omega arith; tail_at = v.tail_at; count_at = omega arith })

get_or-count_up : (a n i : ℕ) → i < n → get_or (count_up a n) i 0 ≡ a + i
get_or-count_up a zero i h = absurd (omega arith)
get_or-count_up a (suc n) zero h = omega arith
get_or-count_up a (suc n) (suc i) h = omega (arith, get_or-count_up (suc a) n i (omega arith))

-- The ring from `h` to 50 in a list whose last place was overwritten.
overwritten :
    (p k h : ℕ)
    → h + k ≡ 51
    → 0 < h
    → ring (set (count_up 0 52) 51 p) h (suc (suc k)) ≡ count_up h k ++ p ∷ 0 ∷ []
overwritten p zero h e pos = let q : h ≡ 51 = omega arith in rw q
overwritten p (suc k) h e pos =
    let q : (h + 1) % 52 ≡ suc h = omega arith in
    ap₂ ◌∷◌
      (get_or-set_ne (count_up 0 52) 51 h p 0 (omega arith)
        ∙ get_or-count_up 0 52 h (omega arith)
        ∙ (omega arith))
      (rw q (overwritten p k (suc h) (omega arith) (omega arith)))

reset-IsFresh : IsFresh 0 rename_free_list_state_init
reset-IsFresh = record { all = refl; head_at = refl; tail_at = refl; count_at = refl }

free-IsFresh :
    {fl : RenameFreeListState} (n p : ℕ)
    → n ≤ 50
    → IsFresh n fl
    → free (released fl p) ≡ count_up (n + 1) (50 - n) ++ p ∷ 0 ∷ []
free-IsFresh {fl} n p h v =
    ap₂ (λ (xs : List ℕ) (i : ℕ). ring (set xs i p) fl.head (u8 (fl.count + 1))) v.all v.tail_at
    ∙ ap₂ (ring (set (count_up 0 52) 51 p)) head count
    ∙ overwritten p (50 - n) (n + 1) (omega arith) (omega arith)
  where
    head : fl.head ≡ n + 1
    head = omega (arith, v.head_at)

    count : u8 (fl.count + 1) ≡ suc (suc (50 - n))
    count = omega (arith, v.count_at)

-- The constructor's tail is one place before the end of its 51 registers, so the first release
-- overwrites a register that is still to be allocated. After `n` allocations from reset, releasing any
-- register `p` loses register 51 for good and makes register 0, which reads as zero and is never
-- written, free to be allocated.
first_release_frees_zero :
    (n p : ℕ)
    → n ≤ 50
    → free (release (allocate_many n rename_free_list_state_init) p)
      ≡ count_up (n + 1) (50 - n) ++ p ∷ 0 ∷ []
first_release_frees_zero n p h =
    let v = allocate-IsFresh n 0 n (omega arith) (omega arith) reset-IsFresh in
    ap free
      (release_lem (allocate_many n rename_free_list_state_init) p (omega (arith, v.count_at)))
    ∙ free-IsFresh n p h v
