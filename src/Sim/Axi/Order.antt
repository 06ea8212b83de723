-- ===== src/Sim/Axi/Order.antt =====
-- The order of the responses of `SimpleMemory` in reference/verilator_trace/standalone_boom_trace.cpp, and
-- that none is lost or made up.
use boom.Base.{
  ℕ, ◌+◌, ◌-◌, ◌==◌, Bool, true, false, not, ◌&&◌, if◌then◌else◌, List, [], ◌∷◌, ◌++◌, append_nil,
  ◌≡◌, refl, sym, ap, ◌∙◌, arith,
}
use mathlib.Core.List.{append_assoc}
use boom.Sim.Memory.{ReadResp, SimpleMemory, write_word, update_tohost}
use boom.Sim.Axi.{
  Tick, tick, is_empty, front, pop_front, r_valid, b_valid, read_beats, accept_read, accept_write,
  finish_beat, take_beat, write_channels,
}

-- The memory after the calls.
abbrev pub after : List Tick → SimpleMemory → SimpleMemory
after [] m = m
after (t ∷ ts) m = after ts (tick m t)

abbrev pub no_reset : List Tick → Bool
no_reset [] = true
no_reset (t ∷ ts) = not t.reset && no_reset ts

-- What the calls accept: the beats of a read when its address is taken, with the memory of that moment.
abbrev read_in : Tick → SimpleMemory → List ReadResp
read_in t m = if t.ar_valid then read_beats m t (t.ar_len + 1) 0 else []

abbrev write_in : Tick → SimpleMemory → List ℕ
write_in t m = if not m.store_inflight && t.aw_valid then t.aw_id ∷ [] else []

abbrev pub reads_in : List Tick → SimpleMemory → List ReadResp
reads_in [] m = []
reads_in (t ∷ ts) m = read_in t m ++ reads_in ts (tick m t)

abbrev pub writes_in : List Tick → SimpleMemory → List ℕ
writes_in [] m = []
writes_in (t ∷ ts) m = write_in t m ++ writes_in ts (tick m t)

-- What the other side takes: a response that is valid before a call in which it is ready.
abbrev pub reads_out : List Tick → SimpleMemory → List ReadResp
reads_out [] m = []
reads_out (t ∷ ts) m = (if t.r_ready then front m.rresp else []) ++ reads_out ts (tick m t)

abbrev pub writes_out : List Tick → SimpleMemory → List ℕ
writes_out [] m = []
writes_out (t ∷ ts) m = (if t.b_ready then front m.bresp else []) ++ writes_out ts (tick m t)

-- The store whose beats are still coming.
abbrev pub in_flight : SimpleMemory → List ℕ
in_flight m = if m.store_inflight then m.store_id ∷ [] else []

take_front {ℓ} :
    {A : Type ℓ} (b : Bool) (xs ys : List A)
    → (if b then front xs else [])
        ++ (if not (is_empty xs) && b then pop_front (xs ++ ys) else xs ++ ys)
      ≡ xs ++ ys
take_front true [] ys = refl
take_front true (x ∷ xs) ys = refl
take_front false [] ys = refl
take_front false (x ∷ xs) ys = refl

-- A queue that grew at its end, from which the front is taken.
take_front_of {ℓ} :
    {A : Type ℓ} (b : Bool) (xs ys zs : List A)
    → zs ≡ xs ++ ys
    → (if b then front xs else []) ++ (if not (is_empty xs) && b then pop_front zs else zs) ≡ zs
take_front_of b xs ys zs e = rw e (take_front b xs ys)

rresp-write_channels : (t : Tick) (m : SimpleMemory) → (write_channels t m).rresp ≡ m.rresp
unfolding write_channels accept_write take_beat finish_beat write_word update_tohost
rresp-write_channels t m = ground arith

-- The id of a store whose last beat is taken.
abbrev completed : Tick → SimpleMemory → List ℕ
completed t m =
    if m.store_inflight && (t.w_valid && m.store_count - 1 == 0) then m.store_id ∷ [] else []

bresp_grows : (t : Tick) (m : SimpleMemory) → (write_channels t m).bresp ≡ m.bresp ++ completed t m
unfolding write_channels accept_write take_beat finish_beat write_word update_tohost
bresp_grows t m = ground (arith, append_nil m.bresp)

bresp-write_channels :
    (t : Tick) (m : SimpleMemory)
    → (write_channels t m).bresp ++ in_flight (write_channels t m)
      ≡ m.bresp ++ in_flight m ++ write_in t m
unfolding write_channels accept_write take_beat finish_beat write_word update_tohost
bresp-write_channels t m =
    ground (arith, append_nil m.bresp, append_nil (m.bresp ++ m.store_id ∷ []))

rresp-accept_read : (t : Tick) (m : SimpleMemory) → (accept_read t m).rresp ≡ m.rresp ++ read_in t m
unfolding accept_read
rresp-accept_read t m = ground (arith, append_nil m.rresp)

bresp-unchanged : (t : Tick) (m : SimpleMemory) → (accept_read t m).bresp ≡ m.bresp
unfolding accept_read
bresp-unchanged t m = refl

bresp-accept_read :
    (t : Tick) (m : SimpleMemory)
    → (accept_read t m).bresp ++ in_flight (accept_read t m) ++ write_in t (accept_read t m)
      ≡ m.bresp ++ in_flight m ++ write_in t m
unfolding accept_read
bresp-accept_read t m = refl

module _ (t : Tick) (m : SimpleMemory) (live : t.reset ≡ false) where
  abbrev pub accepted : SimpleMemory
  accepted = write_channels t (accept_read t m)

  pub tick_live : tick m t ≡ record accepted {
    rresp = if r_valid m && t.r_ready then pop_front accepted.rresp else accepted.rresp;
    bresp = if b_valid m && t.b_ready then pop_front accepted.bresp else accepted.bresp;
  }
  unfolding tick
  tick_live = rw live refl

  tick_reads :
      (if t.r_ready then front m.rresp else []) ++ (tick m t).rresp ≡ m.rresp ++ read_in t m
  tick_reads =
      rw tick_live (take_front_of t.r_ready m.rresp (read_in t m) accepted.rresp grown ∙ grown)
    where
      grown : accepted.rresp ≡ m.rresp ++ read_in t m
      grown = rresp-write_channels t (accept_read t m) ∙ rresp-accept_read t m

  tick_writes :
      (if t.b_ready then front m.bresp else []) ++ (tick m t).bresp ++ in_flight (tick m t)
      ≡ m.bresp ++ in_flight m ++ write_in t m
  tick_writes = rw tick_live (
      ap (λ (q : List ℕ). q ++ in_flight accepted)
        (take_front_of t.b_ready m.bresp (completed t (accept_read t m)) accepted.bresp
          (bresp_grows t (accept_read t m) ∙ same_queue))
      ∙ bresp-write_channels t (accept_read t m)
      ∙ bresp-accept_read t m)
    where
      same_queue :
          (accept_read t m).bresp ++ completed t (accept_read t m)
          ≡ m.bresp ++ completed t (accept_read t m)
      same_queue = ap (λ (q : List ℕ). q ++ completed t (accept_read t m)) (bresp-unchanged t m)

-- One call before the rest.
chain {ℓ} :
    {A : Type ℓ} (a b c x y q z : List A)
    → b ++ c ≡ q ++ z
    → a ++ q ≡ x ++ y
    → (a ++ b) ++ c ≡ x ++ (y ++ z)
chain a b c x y q z rest one =
    append_assoc a b c
    ∙ ap (λ l. a ++ l) rest
    ∙ sym (append_assoc a q z)
    ∙ ap (λ l. l ++ z) one
    ∙ append_assoc x y z

-- Over any calls without a reset, from any state: the read beats that the other side took and those that
-- wait are, in this order, those that waited before and all beats of the accepted reads; the responses to
-- stores that it took, those that wait and the store in flight are, in this order, those that waited, the
-- one that was in flight and the accepted stores.
pub responses_in_order :
    (ts : List Tick) (m : SimpleMemory)
    → no_reset ts ≡ true
    → (reads_out ts m ++ (after ts m).rresp ≡ m.rresp ++ reads_in ts m)
      × (writes_out ts m ++ (after ts m).bresp ++ in_flight (after ts m)
          ≡ m.bresp ++ in_flight m ++ writes_in ts m)
responses_in_order [] m h = (sym (append_nil m.rresp), sym (append_nil (m.bresp ++ in_flight m)))
responses_in_order (t ∷ ts) m h =
    let live : t.reset ≡ false = ground arith in
    let rest = responses_in_order ts (tick m t) (ground arith) in
    (
      chain _ (reads_out ts (tick m t)) _ m.rresp (read_in t m) (tick m t).rresp _ rest.0
          (tick_reads t m live),
      ap (λ (q : List ℕ). q ++ in_flight (after ts (tick m t)))
            (append_assoc _ (writes_out ts (tick m t)) (after ts (tick m t)).bresp)
          ∙ chain _ (writes_out ts (tick m t) ++ (after ts (tick m t)).bresp) _
              (m.bresp ++ in_flight m) (write_in t m) ((tick m t).bresp ++ in_flight (tick m t)) _
              rest.1
              (sym (append_assoc _ (tick m t).bresp (in_flight (tick m t))) ∙ tick_writes t m live),
    )
