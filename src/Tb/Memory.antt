-- ===== src/Tb/Memory.antt =====
-- `IMem` and `DMemModel` of tb/differential/lsu_minimal_tests.cpp, the memories that answer the core.
pub mod Bytes
pub mod RoundTrip
use boom.Base.{
  ℕ, zero, suc, ◌+◌, ◌-◌, ◌*◌, ◌^◌, ◌<<<◌, ◌>>>◌, bit_and, bit_or, u32, u64, Bool, true, false, not,
  ◌&&◌, ◌||◌, ◌==◌, ◌!=◌, ltb, if◌then◌else◌, List, [], ◌∷◌, length, get_or, set, replicate,
}
use boom.Types.Messages.{ImemRequest, ImemResponse, DmemRequest, dmem_request_init, DmemResponse}
use boom.Pipe.{PipeSignals, write, full}

-- The array `w` with its default 0 past `n`.
pub record IMem : Type 0 where
  pub w : List ℕ
  pub n : ℕ
  pub base : ℕ

unfoldable pub clear_imem : ℕ → IMem
clear_imem b = record { w = replicate 256 0; n = 0; base = b }

unfoldable pub add : IMem → ℕ → IMem
add m x = if ltb m.n 256 then record m { w = set m.w m.n x; n = m.n + 1 } else m

unfoldable pub read_imem : IMem → ℕ → ℕ
read_imem m a =
    if ltb a m.base
    then 0
    else let i = u32 ((a - m.base) >>> 2) in if ltb i m.n then get_or m.w i 0 else 0

pub record DMemModel : Type 0 where
  pub bytes : List ℕ
  pub store_count : ℕ
  pub load_count : ℕ
  pub saw_tohost : Bool
  pub store_before_commit : Bool
  pub tohost_addr : ℕ
  pub tohost_value : ℕ
  pub delay_load : Bool
  pub send_stale_first : Bool
  pub stale_sent : Bool
  pub pending_valid : Bool
  pub pending_delay : ℕ
  pub pending_req : DmemRequest

unfoldable pub clear_dmem : ℕ → DMemModel
clear_dmem th = record {
  bytes = replicate 256 0;
  store_count = 0;
  load_count = 0;
  saw_tohost = false;
  store_before_commit = false;
  tohost_addr = th;
  tohost_value = 0;
  delay_load = false;
  send_stale_first = false;
  stale_sent = false;
  pending_valid = false;
  pending_delay = 0;
  pending_req = dmem_request_init;
}

-- The loop of `read64` from round `i` on, with `k` rounds left.
unfoldable pub read_loop : List ℕ → ℕ → ℕ → ℕ → ℕ → ℕ
read_loop bytes base zero i v = v
read_loop bytes base (suc k) i v =
    read_loop bytes base k (i + 1)
      (if ltb (base + i) 256 then bit_or v (get_or bytes (base + i) 0 <<< (8 * i)) else v)

-- `addr & ~7ULL`
unfoldable pub aligned : ℕ → ℕ
aligned addr = bit_and addr (2 ^ 64 - 8)

unfoldable pub read64 : List ℕ → ℕ → ℕ
unfolding read_loop aligned
read64 bytes addr = read_loop bytes (aligned addr) 8 0 0

-- The loop of `DMemModel.write` in the same way.
unfoldable pub write_loop : ℕ → ℕ → ℕ → ℕ → ℕ → List ℕ → List ℕ
write_loop addr value mask zero i bytes = bytes
write_loop addr value mask (suc k) i bytes = write_loop addr value mask k (i + 1) (
    if bit_and mask (1 <<< i) != 0 && ltb (u64 (addr + i)) 256
    then set bytes (u64 (addr + i)) (bit_and (value >>> (8 * i)) 0xFF)
    else bytes)

unfoldable pub write_bytes : List ℕ → ℕ → ℕ → ℕ → List ℕ
unfolding write_loop
write_bytes bytes addr value mask = write_loop addr value mask 8 0 bytes

abbrev answer : ℕ → ℕ → DmemResponse
answer id v = record {
  transaction_id = id;
  data_ = v;
  read_data = v;
  exception = false;
  exc_cause = 0;
  exception_cause = 0;
}

unfoldable pub make_load_response : DMemModel → PipeSignals → DmemRequest → ℕ → PipeSignals
make_load_response m p req tx_override = if full p.dmem_resp then p else record p {
  dmem_resp = write p.dmem_resp (
      answer (if tx_override != 0 then tx_override else req.transaction_id)
        (read64 m.bytes req.address));
}

-- Lines 67 to 70.
unfoldable pub answer_pending : DMemModel → PipeSignals → DMemModel × PipeSignals
answer_pending m p =
    if m.pending_valid
    then (let d = m.pending_delay - 1 in
        if d == 0
        then (
          record m { pending_delay = 0; pending_valid = false },
          make_load_response m p m.pending_req 0,
        )
        else (record m { pending_delay = d }, p))
    else (m, p)

-- Lines 74 to 77.
unfoldable pub take_store : DMemModel → DmemRequest → Bool → DMemModel
take_store m req store_commit_seen = record m {
  store_count = m.store_count + 1;
  store_before_commit = m.store_before_commit || not store_commit_seen;
  bytes =
      write_bytes m.bytes req.address req.write_data
        (if req.write_mask != 0 then req.write_mask else req.mask);
  saw_tohost = m.saw_tohost || req.address == m.tohost_addr;
  tohost_value = if req.address == m.tohost_addr then req.write_data else m.tohost_value;
}

-- Lines 79 to 82.
unfoldable pub take_load : DMemModel → PipeSignals → DmemRequest → DMemModel × PipeSignals
take_load m p req =
    let stale = m.send_stale_first && not m.stale_sent in
    let p1 = if stale then make_load_response m p req (u32 (req.transaction_id + 999)) else p in
    let m1 = record m { load_count = m.load_count + 1; stale_sent = m.stale_sent || stale } in
    if m.delay_load
    then (record m1 { pending_req = req; pending_valid = true; pending_delay = 3 }, p1)
    else (m1, make_load_response m1 p1 req 0)

unfoldable pub take_request :
    DMemModel → PipeSignals → List DmemRequest → Bool → DMemModel × PipeSignals
unfolding take_store take_load
take_request m p [] seen = (m, p)
take_request m p (req ∷ rest) seen =
    let p1 = record p { dmem_req = rest } in
    if req.is_store then (take_store m req seen, p1) else take_load m p1 req

unfoldable pub step : DMemModel → PipeSignals → Bool → DMemModel × PipeSignals
unfolding answer_pending take_request
step m p store_commit_seen =
    let (m1, p1) = answer_pending m p in take_request m1 p1 p1.dmem_req store_commit_seen
