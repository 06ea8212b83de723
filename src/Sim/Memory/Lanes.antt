-- ===== src/Sim/Memory/Lanes.antt =====
-- What a beat writes into `SimpleMemory` of reference/verilator_trace/standalone_boom_trace.cpp, and how it
-- is read back.
use boom.Base.{
  ℕ, ◌+◌, ◌^◌, ◌≤◌, min, u64, ◌||◌, true, ◌&&◌, ◌==◌, ltb, leb, if◌then◌else◌, Option, some, ◌≡◌,
}
use boom.Sim.Memory.{SimpleMemory, wrap, put, byte_of, has_bit, aligned, lanes, written, write_word}

-- The place of byte `i` behind `base` in a memory of `total` bytes.
abbrev pub place : ℕ → ℕ → ℕ → ℕ
place total base i = wrap total (u64 (base + i))

module _ (total base value strb n : ℕ) (top : base + n ≤ 2 ^ 64)
    (room : (total == 0 || leb n total) ≡ true) where
  -- The byte at the place of `j` after the `k` rounds from `i` on.
  abbrev expected : ℕ → ℕ → (ℕ → Option ℕ) → ℕ → Option ℕ
  expected k i bytes j =
      if leb i j && ltb j (i + k) && has_bit strb j
      then some (byte_of value j)
      else bytes (place total base j)

  -- One round.
  abbrev round : ℕ → (ℕ → Option ℕ) → ℕ → Option ℕ
  round i bytes = if has_bit strb i then put bytes (place total base i) (byte_of value i) else bytes

-- What `update_tohost` leaves alone.
record IsSame (m n : SimpleMemory) : Type 0 where
  total : n.size ≡ m.size
  word_size : n.word_size ≡ m.word_size
  bytes : n.bytes ≡ m.bytes

-- How many bytes a beat may write.
abbrev pub width : SimpleMemory → ℕ
width m = min m.word_size 8

module _ (m : SimpleMemory) (addr value strb size : ℕ)
    (top : aligned m.word_size addr + width m ≤ 2 ^ 64)
    (room : (m.size == 0 || leb (width m) m.size) ≡ true) where
  abbrev base : ℕ
  base = aligned m.word_size addr

  abbrev chosen : ℕ
  chosen = lanes m.word_size addr strb size

  abbrev pub beat : SimpleMemory
  beat = write_word m addr value strb size

  abbrev stored_bytes : SimpleMemory
  stored_bytes = record m { bytes = written m.size m.word_size addr value strb size m.bytes }
