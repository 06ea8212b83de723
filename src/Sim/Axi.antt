-- ===== src/Sim/Axi.antt =====
-- `tick` of `SimpleMemory` and `memory_tick` in reference/verilator_trace/standalone_boom_trace.cpp: the
-- five AXI channels in one cycle.
pub mod Order
pub mod Burst
use boom.Base.{
  ℕ, zero, suc, ◌+◌, ◌-◌, ◌*◌, ◌/◌, ◌<<<◌, min, u64, Bool, true, false, not, ◌&&◌, ◌==◌, ltb,
  if◌then◌else◌, List, [], ◌∷◌, ◌++◌, Option, none, some,
}
use boom.Sim.Memory.{
  ReadResp, read_resp_init, SimpleMemory, read_word, aligned, write_word, written,
}

-- The arguments of one call.
pub record Tick : Type 0 where
  pub reset : Bool
  pub ar_valid : Bool
  pub ar_addr : ℕ
  pub ar_id : ℕ
  pub ar_size : ℕ
  pub ar_len : ℕ
  pub aw_valid : Bool
  pub aw_addr : ℕ
  pub aw_id : ℕ
  pub aw_size : ℕ
  pub aw_len : ℕ
  pub w_valid : Bool
  pub w_strb : ℕ
  pub w_data : ℕ
  pub w_last : Bool
  pub r_ready : Bool
  pub b_ready : Bool

module _ {ℓ} {A : Type ℓ} where
  abbrev pub is_empty : List A → Bool
  is_empty [] = true
  is_empty (x ∷ xs) = false

  abbrev pub front : List A → List A
  front [] = []
  front (x ∷ xs) = x ∷ []

  abbrev pub pop_front : List A → List A
  pop_front [] = []
  pop_front (x ∷ xs) = xs

abbrev pub r_valid : SimpleMemory → Bool
r_valid m = not (is_empty m.rresp)

abbrev pub b_valid : SimpleMemory → Bool
b_valid m = not (is_empty m.bresp)

abbrev front_or {ℓ} : {A : Type ℓ} → List A → A → A
front_or [] d = d
front_or (x ∷ xs) d = x

-- The beats of a read from beat `beat` on, with `k` left.
unfoldable pub read_beats : SimpleMemory → Tick → ℕ → ℕ → List ReadResp
read_beats m t zero beat = []
read_beats m t (suc k) beat =
    record {
      id = t.ar_id;
      data_ = read_word m (u64 (aligned m.word_size t.ar_addr + beat * m.word_size));
      last = beat == t.ar_len;
    }
    ∷ read_beats m t k (beat + 1)

-- The read channel: all beats of the burst are queued at once.
unfoldable pub accept_read : Tick → SimpleMemory → SimpleMemory
unfolding read_beats
accept_read t m = record m {
  rresp = if t.ar_valid then m.rresp ++ read_beats m t (t.ar_len + 1) 0 else m.rresp;
}

unfoldable pub accept_write : Tick → SimpleMemory → SimpleMemory
accept_write t m = record m {
  store_addr = t.aw_addr;
  store_id = t.aw_id;
  store_count = u64 (t.aw_len + 1);
  store_size = 1 <<< min t.aw_size 3;
  store_inflight = true;
}

-- What is left of the burst behind a beat, and its response.
unfoldable pub finish_beat : SimpleMemory → SimpleMemory
finish_beat m =
    if m.store_count - 1 == 0
    then record m {
      store_addr = u64 (m.store_addr + m.store_size);
      store_count = 0;
      store_inflight = false;
      bresp = m.bresp ++ m.store_id ∷ [];
    }
    else record m {
      store_addr = u64 (m.store_addr + m.store_size);
      store_count = m.store_count - 1;
    }

unfoldable pub take_beat : Tick → SimpleMemory → SimpleMemory
unfolding finish_beat write_word
take_beat t m = finish_beat (write_word m m.store_addr t.w_data t.w_strb m.store_size)

-- The write channels. `aw_ready()` is that no store is in flight, and `w_ready()` that one is, both
-- before the call.
unfoldable pub write_channels : Tick → SimpleMemory → SimpleMemory
unfolding accept_write take_beat
write_channels t m =
    if m.store_inflight
    then if t.w_valid then take_beat t m else m
    else if t.aw_valid
    then accept_write t m
    else m

unfoldable pub cleared : SimpleMemory → SimpleMemory
cleared m = record m {
  rresp = [];
  bresp = [];
  store_inflight = false;
  tohost_seen = false;
  tohost_value = 0;
}

-- `r_fire` and `b_fire` look at the queues before the call.
unfoldable pub tick : SimpleMemory → Tick → SimpleMemory
unfolding accept_read write_channels cleared
tick m t =
    if t.reset
    then cleared m
    else (let n = write_channels t (accept_read t m) in
        record n {
          rresp = if r_valid m && t.r_ready then pop_front n.rresp else n.rresp;
          bresp = if b_valid m && t.b_ready then pop_front n.bresp else n.bresp;
        })

-- What `memory_tick` sets. The response codes are 0.
pub record Wires : Type 0 where
  pub ar_ready : Bool
  pub aw_ready : Bool
  pub w_ready : Bool
  pub r_valid : Bool
  pub r : ReadResp
  pub b_valid : Bool
  pub b_id : ℕ

unfoldable pub wires : SimpleMemory → Wires
wires m = record {
  ar_ready = true;
  aw_ready = not m.store_inflight;
  w_ready = m.store_inflight;
  r_valid = r_valid m;
  r = front_or m.rresp read_resp_init;
  b_valid = b_valid m;
  b_id = front_or m.bresp 0;
}

abbrev no_wires : Wires
no_wires = record {
  ar_ready = false;
  aw_ready = false;
  w_ready = false;
  r_valid = false;
  r = read_resp_init;
  b_valid = false;
  b_id = 0;
}

-- `none` is the null channel.
unfoldable pub memory_tick : Option SimpleMemory → Tick → Option SimpleMemory × Wires
unfolding tick wires
memory_tick none t = (none, no_wires)
memory_tick (some m) t = (some (tick m t), wires (tick m t))
