-- ===== src/Sim/Memory.antt =====
-- `SimpleMemory` of reference/verilator_trace/standalone_boom_trace.cpp, the AXI memory that answers the
-- simulated core. The map `bytes_` is a function from addresses.
pub mod Lanes
use boom.Base.{
  ℕ, zero, suc, ◌+◌, ◌-◌, ◌*◌, ◌/◌, ◌%◌, ◌^◌, ◌<<<◌, ◌>>>◌, min, bit_and, bit_or, u32, u64, Bool,
  true, false, not, ◌&&◌, ◌||◌, ◌==◌, ◌!=◌, ltb, leb, if◌then◌else◌, List, [], ◌∷◌, ◌++◌, Option,
  none, some,
}

pub record ReadResp : Type 0 where
  pub id : ℕ
  pub data_ : ℕ
  pub last : Bool

abbrev pub read_resp_init : ReadResp
read_resp_init = record { id = 0; data_ = 0; last = false }

pub record SimpleMemory : Type 0 where
  pub size : ℕ
  pub word_size : ℕ
  pub line_size : ℕ
  pub store_inflight : Bool
  pub store_addr : ℕ
  pub store_id : ℕ
  pub store_size : ℕ
  pub store_count : ℕ
  pub rresp : List ReadResp
  pub bresp : List ℕ
  pub bytes : ℕ → Option ℕ
  pub tohost_enabled : Bool
  pub tohost_seen : Bool
  pub tohost_addr : ℕ
  pub tohost_value : ℕ

-- `n <= 0` of an `int`.
abbrev not_positive : ℕ → Bool
not_positive n = n == 0 || leb (2 ^ 31) n

-- The constructor; `none` where it exits with 2.
unfoldable pub simple_memory : ℕ → ℕ → ℕ → Option SimpleMemory
simple_memory size word_size line_size =
    if not_positive word_size || not_positive line_size
    then none
    else some (record {
      size = size;
      word_size = word_size;
      line_size = line_size;
      store_inflight = false;
      store_addr = 0;
      store_id = 0;
      store_size = 0;
      store_count = 0;
      rresp = [];
      bresp = [];
      bytes = λ addr. none;
      tohost_enabled = false;
      tohost_seen = false;
      tohost_addr = 0;
      tohost_value = 0;
    })

unfoldable pub watch_tohost : SimpleMemory → ℕ → SimpleMemory
watch_tohost m addr = record m {
  tohost_addr = addr;
  tohost_enabled = addr != 0;
  tohost_seen = false;
  tohost_value = 0;
}

-- `addr % size_`, where 0 stands for no bound.
unfoldable pub wrap : ℕ → ℕ → ℕ
wrap size addr = if size == 0 then addr else addr % size

-- `bytes_[k] = v`
abbrev pub put : (ℕ → Option ℕ) → ℕ → ℕ → ℕ → Option ℕ
put bytes k v j = if k == j then some v else bytes j

abbrev or_zero : Option ℕ → ℕ
or_zero none = 0
or_zero (some b) = b

unfoldable pub byte_at : SimpleMemory → ℕ → ℕ
unfolding wrap
byte_at m addr = or_zero (m.bytes (wrap m.size addr))

-- The loop of the readers over the bytes `f`, from round `i` on with `k` rounds left.
unfoldable pub assemble : (ℕ → ℕ) → ℕ → ℕ → ℕ → ℕ
assemble f zero i result = result
assemble f (suc k) i result =
    assemble f k (i + 1) (if ltb i 8 then bit_or result (f i <<< (8 * i)) else result)

unfoldable pub read_word : SimpleMemory → ℕ → ℕ
unfolding assemble byte_at
read_word m addr = assemble (λ i. byte_at m (u64 (addr + i))) m.word_size 0 0

unfoldable pub read_double : SimpleMemory → ℕ → ℕ
unfolding assemble byte_at
read_double m addr = assemble (λ i. byte_at m (u64 (addr + i))) 8 0 0

abbrev is_some : Option ℕ → Bool
is_some none = false
is_some (some b) = true

-- Whether any of the four bytes is there, and their value.
unfoldable pub read_u32 : SimpleMemory → ℕ → Bool × ℕ
unfolding assemble byte_at wrap
read_u32 m addr = (
  is_there 0 || is_there 1 || is_there 2 || is_there 3,
  assemble (λ i. byte_at m (u64 (addr + i))) 4 0 0,
)
  where
    is_there : ℕ → Bool
    is_there i = is_some (m.bytes (wrap m.size (u64 (addr + i))))

unfoldable pub update_tohost : SimpleMemory → ℕ → SimpleMemory
unfolding read_double
update_tohost m base =
    if not m.tohost_enabled
    then m
    else if leb base m.tohost_addr && ltb m.tohost_addr (u64 (base + m.word_size))
    then (let value = read_double m m.tohost_addr in
        if value != 0 then record m { tohost_seen = true; tohost_value = value } else m)
    else m

abbrev pub byte_of : ℕ → ℕ → ℕ
byte_of value i = bit_and (value >>> (8 * i)) 0xFF

abbrev pub has_bit : ℕ → ℕ → Bool
has_bit strb i = bit_and strb (1 <<< i) != 0

-- The loop of `write_word` in the same way.
unfoldable pub write_loop : ℕ → ℕ → ℕ → ℕ → ℕ → ℕ → (ℕ → Option ℕ) → ℕ → Option ℕ
unfolding wrap
write_loop size base value strb zero i bytes = bytes
write_loop size base value strb (suc k) i bytes =
    write_loop size base value strb k (i + 1)
      (if has_bit strb i then put bytes (wrap size (u64 (base + i))) (byte_of value i) else bytes)

-- `(addr / word_size_) * word_size_`
abbrev pub aligned : ℕ → ℕ → ℕ
aligned word_size addr = addr / word_size * word_size

-- The bytes that a beat may write: those of the strobe that lie in its transfer.
abbrev pub lanes : ℕ → ℕ → ℕ → ℕ → ℕ
lanes word_size addr strb size = bit_and strb (u64 (((1 <<< size) - 1) <<< (addr % word_size)))

-- The bytes of a memory of `total` bytes and its words after a beat.
unfoldable pub written : ℕ → ℕ → ℕ → ℕ → ℕ → ℕ → (ℕ → Option ℕ) → ℕ → Option ℕ
unfolding write_loop
written total word_size addr value strb size bytes =
    write_loop total (aligned word_size addr) value (lanes word_size addr strb size)
      (min word_size 8) 0 bytes

unfoldable pub write_word : SimpleMemory → ℕ → ℕ → ℕ → ℕ → SimpleMemory
unfolding written update_tohost
write_word m addr value strb size =
    update_tohost (record m { bytes = written m.size m.word_size addr value strb size m.bytes })
      (aligned m.word_size addr)
