-- ===== src/Sim/Axi/Burst.antt =====
-- A write burst of `SimpleMemory` in reference/verilator_trace/standalone_boom_trace.cpp, from its address
-- to its last beat.
use boom.Base.{
  ℕ, suc, ◌+◌, ◌-◌, ◌≤◌, ◌<◌, ◌^◌, min, u64, Bool, if_either, true, false, not, ◌&&◌, ◌==◌, ltb,
  List, [], ◌∷◌, length, Option, ◌≡◌, refl, ap, ◌∙◌, arith, ◌!=◌, if_true, if_false, leb, sym,
  subst, lt→ltb,
}
use boom.Sim.Memory.{SimpleMemory, written, write_word, aligned, update_tohost, read_double}
use boom.Sim.Axi.{Tick, tick, accept_read, accept_write, finish_beat, take_beat, write_channels}
use boom.Sim.Axi.Order.{after, tick_live}

-- Every call offers a beat.
abbrev pub all_beats : List Tick → Bool
all_beats [] = true
all_beats (t ∷ ts) = not t.reset && t.w_valid && all_beats ts

-- The bytes after the beats of a burst: each at the next address.
abbrev pub stored : ℕ → ℕ → ℕ → List Tick → ℕ → (ℕ → Option ℕ) → ℕ → Option ℕ
stored total word_size size [] addr bytes = bytes
stored total word_size size (t ∷ ts) addr bytes =
    stored total word_size size ts (u64 (addr + size))
      (written total word_size addr t.w_data t.w_strb size bytes)

-- What the write of a beat leaves, and its bytes.
record IsStored (t : Tick) (m n : SimpleMemory) : Type 0 where
  size : n.size ≡ m.size
  word_size : n.word_size ≡ m.word_size
  store_size : n.store_size ≡ m.store_size
  store_addr : n.store_addr ≡ m.store_addr
  store_count : n.store_count ≡ m.store_count
  store_inflight : n.store_inflight ≡ m.store_inflight
  bytes : n.bytes ≡ written m.size m.word_size m.store_addr t.w_data t.w_strb m.store_size m.bytes

-- What a beat changes of the store in flight.
record IsBeat (t : Tick) (m n : SimpleMemory) : Type 0 where
  size : n.size ≡ m.size
  word_size : n.word_size ≡ m.word_size
  store_size : n.store_size ≡ m.store_size
  store_addr : n.store_addr ≡ u64 (m.store_addr + m.store_size)
  store_count : n.store_count ≡ m.store_count - 1
  store_inflight : n.store_inflight ≡ not (m.store_count - 1 == 0)
  bytes : n.bytes ≡ written m.size m.word_size m.store_addr t.w_data t.w_strb m.store_size m.bytes

finish_beat-IsBeat :
    (t : Tick) (m n : SimpleMemory)
    → m.store_inflight ≡ true
    → IsStored t m n
    → IsBeat t m (finish_beat n)
unfolding finish_beat
finish_beat-IsBeat t m n i s = ground arith

update_tohost-IsStored :
    (t : Tick) (m n : SimpleMemory) (base : ℕ)
    → IsStored t m n
    → IsStored t m (update_tohost n base)
unfolding update_tohost
update_tohost-IsStored t m n base s = if_either (IsStored t m) (not n.tohost_enabled) s (
    if_either (IsStored t m)
      (leb base n.tohost_addr && ltb n.tohost_addr (u64 (base + n.word_size)))
      (if_either (IsStored t m) (read_double n n.tohost_addr != 0) noted s) s)
  where
    noted :
        IsStored t m (record n { tohost_seen = true; tohost_value = read_double n n.tohost_addr })
    noted = record {
      size = s.size;
      word_size = s.word_size;
      store_size = s.store_size;
      store_addr = s.store_addr;
      store_count = s.store_count;
      store_inflight = s.store_inflight;
      bytes = s.bytes;
    }

abbrev with_bytes : Tick → SimpleMemory → SimpleMemory
with_bytes t m = record m {
  bytes = written m.size m.word_size m.store_addr t.w_data t.w_strb m.store_size m.bytes;
}

take_beat-IsBeat :
    (t : Tick) (m : SimpleMemory) → m.store_inflight ≡ true → IsBeat t m (take_beat t m)
unfolding take_beat write_word
take_beat-IsBeat t m i =
    finish_beat-IsBeat t m (update_tohost (with_bytes t m) (aligned m.word_size m.store_addr)) i (
      update_tohost-IsStored t m (with_bytes t m) (aligned m.word_size m.store_addr) (record {
        size = refl;
        word_size = refl;
        store_size = refl;
        store_addr = refl;
        store_count = refl;
        store_inflight = refl;
        bytes = refl;
      }))

write_channels_beat :
    (t : Tick) (m : SimpleMemory)
    → t.w_valid ≡ true
    → m.store_inflight ≡ true
    → write_channels t m ≡ take_beat t m
unfolding write_channels
write_channels_beat t m w i = if_true _ _ i ∙ if_true _ _ w

-- A call that takes a beat.
tick-IsBeat :
    (t : Tick) (m : SimpleMemory)
    → t.reset ≡ false
    → t.w_valid ≡ true
    → m.store_inflight ≡ true
    → IsBeat t m (tick m t)
unfolding accept_read
tick-IsBeat t m r w i = subst (IsBeat t m) (sym (tick_live t m r)) (record {
  size = b.size;
  word_size = b.word_size;
  store_size = b.store_size;
  store_addr = b.store_addr;
  store_count = b.store_count;
  store_inflight = b.store_inflight;
  bytes = b.bytes;
})
  where
    b : IsBeat t (accept_read t m) (write_channels t (accept_read t m))
    b =
        subst (IsBeat t (accept_read t m)) (sym (write_channels_beat t (accept_read t m) w i))
          (take_beat-IsBeat t (accept_read t m) i)

stored_same :
    (ts : List Tick) {s s' w w' z z' a a' : ℕ} {b b' : ℕ → Option ℕ}
    → s ≡ s'
    → w ≡ w'
    → z ≡ z'
    → a ≡ a'
    → b ≡ b'
    → stored s w z ts a b ≡ stored s' w' z' ts a' b'
stored_same ts p q r e f = λ i. stored (p i) (q i) (r i) ts (e i) (f i)

one_less : (n c : ℕ) → 0 < c → ltb n (c - 1) ≡ ltb (suc n) c
one_less n c p = ground arith

beats_write :
    (ts : List Tick) (m : SimpleMemory)
    → all_beats ts ≡ true
    → m.store_inflight ≡ true
    → 0 < m.store_count
    → length ts ≤ m.store_count
    → ((after ts m).bytes ≡ stored m.size m.word_size m.store_size ts m.store_addr m.bytes)
      × ((after ts m).store_inflight ≡ ltb (length ts) m.store_count)
beats_write [] m h i p l = (refl, i ∙ sym (lt→ltb 0 m.store_count p))
beats_write (t ∷ []) m h i p l =
    let b : IsBeat t m (tick m t) = tick-IsBeat t m (ground arith) (ground arith) i in
    let last : not (m.store_count - 1 == 0) ≡ ltb 1 m.store_count = ground arith in
    (b.bytes, b.store_inflight ∙ last)
beats_write (t ∷ u ∷ ts) m h i p l =
    let b : IsBeat t m (tick m t) = tick-IsBeat t m (ground arith) (ground arith) i in
    let more : not (m.store_count - 1 == 0) ≡ true = ground arith in
    let rest =
      beats_write (u ∷ ts) (tick m t) (ground arith) (b.store_inflight ∙ more)
        (omega (arith, b.store_count)) (omega (arith, b.store_count)) in
    let fewer : ltb (suc (length ts)) (tick m t).store_count
        ≡ ltb (suc (suc (length ts))) m.store_count =
      rw b.store_count (one_less (suc (length ts)) m.store_count p) in
    (
      rest.0 ∙ stored_same (u ∷ ts) b.size b.word_size b.store_size b.store_addr b.bytes,
      rest.1 ∙ fewer,
    )

-- An address that is taken while no store is in flight, with any read beside it.
record IsTaken (a : Tick) (m n : SimpleMemory) : Type 0 where
  size : n.size ≡ m.size
  word_size : n.word_size ≡ m.word_size
  store_size : n.store_size ≡ 2 ^ min a.aw_size 3
  store_addr : n.store_addr ≡ a.aw_addr
  store_count : n.store_count ≡ u64 (a.aw_len + 1)
  store_inflight : n.store_inflight ≡ true
  bytes : n.bytes ≡ m.bytes

address-IsTaken : (a : Tick) (m : SimpleMemory) → IsTaken a m (accept_write a (accept_read a m))
unfolding accept_write accept_read
address-IsTaken a m = record {
  size = refl;
  word_size = refl;
  store_size = omega arith;
  store_addr = refl;
  store_count = refl;
  store_inflight = refl;
  bytes = refl;
}

write_channels_address :
    (a : Tick) (m : SimpleMemory)
    → a.aw_valid ≡ true
    → m.store_inflight ≡ false
    → write_channels a m ≡ accept_write a m
unfolding write_channels
write_channels_address a m v i = if_false _ _ i ∙ if_true _ _ v

tick-IsTaken :
    (a : Tick) (m : SimpleMemory)
    → a.reset ≡ false
    → a.aw_valid ≡ true
    → m.store_inflight ≡ false
    → IsTaken a m (tick m a)
unfolding accept_read
tick-IsTaken a m r v i = subst (IsTaken a m) (sym (tick_live a m r)) (record {
  size = b.size;
  word_size = b.word_size;
  store_size = b.store_size;
  store_addr = b.store_addr;
  store_count = b.store_count;
  store_inflight = b.store_inflight;
  bytes = b.bytes;
})
  where
    b : IsTaken a m (write_channels a (accept_read a m))
    b =
        subst (IsTaken a m) (sym (write_channels_address a (accept_read a m) v i))
          (address-IsTaken a m)

-- A store of `aw_len + 1` beats, after any reads and stores before it, with a beat in each call from the
-- next on: it is in flight until exactly its last beat, and its beats were written in order, each at the
-- address behind the one before.
pub store_burst :
    (a : Tick) (ts : List Tick) (m : SimpleMemory)
    → a.reset ≡ false
    → a.aw_valid ≡ true
    → a.aw_len < 2 ^ 32
    → m.store_inflight ≡ false
    → all_beats ts ≡ true
    → length ts ≤ a.aw_len + 1
    → ((after (a ∷ ts) m).bytes
        ≡ stored m.size m.word_size (2 ^ min a.aw_size 3) ts a.aw_addr m.bytes)
      × ((after (a ∷ ts) m).store_inflight ≡ ltb (length ts) (a.aw_len + 1))
store_burst a ts m r v fits i h l =
    let b : IsTaken a m (tick m a) = tick-IsTaken a m r v i in
    let count : (tick m a).store_count ≡ a.aw_len + 1 = omega (arith, b.store_count) in
    let rest =
      beats_write ts (tick m a) h b.store_inflight (omega (arith, count)) (omega (arith, count)) in
    (
      rest.0 ∙ stored_same ts b.size b.word_size b.store_size b.store_addr b.bytes,
      rest.1 ∙ ap (λ (c : ℕ). ltb (length ts) c) count,
    )
