-- ===== src/Tb/Memory/RoundTrip.antt =====
-- `write` and `read64` of the memory model of tb/differential/lsu_minimal_tests.cpp, with the masks and
-- the load values of src/execute.cpp and src/lsu.cpp.
use boom.Base.{
  ℕ, zero, suc, ◌+◌, ◌-◌, ◌*◌, ◌/◌, ◌%◌, ◌^◌, ◌≤◌, ◌<◌, ◌<<<◌, ◌>>>◌, bit_and, u64, Bool, true,
  false, not, ◌&&◌, ◌!=◌, ltb, leb, if◌then◌else◌, List, length, get_or, set, length-set,
  get_or-set_self, get_or-set_ne, ◌≡◌, ◌≢◌, ◌⊎◌, inl, inr, refl, sym, ap, ap₂, subst, ◌∙◌, arith,
  if_true, if_false, Bool-cases, lt→ltb, le→ltb, if_either, ◌==◌,
}
use boom.Base.Bits.{bit_and-low_mask}
use native.Mathlib.Nat.{div-div-eq-div-mul}
use boom.Lsu.Value.{load_value}
use boom.Lsu.Value.Bytes.{little_endian, bytes_at, sign_extended, load_value_lem}
use boom.Execute.{mask_for_size}
use boom.Tb.Memory.{write_loop, write_bytes, read64}
use boom.Tb.Memory.Bytes.{AreBytes, word_at, read64-word_at, drop_bytes, low_bytes, byte_power}

-- Bit `i` of a mask, as the code tests it.
abbrev pub has_bit : ℕ → ℕ → Bool
has_bit mask i = bit_and mask (1 <<< i) != 0

abbrev pub byte_of : ℕ → ℕ → ℕ
byte_of value i = bit_and (value >>> (8 * i)) 0xFF

module _ (addr value mask : ℕ) (start : addr < 256) where
  -- The code's test in round `i`.
  abbrev writes : ℕ → Bool
  writes i = has_bit mask i && ltb (addr + i) 256

  -- Byte `addr + c` after the `k` rounds from `i` on.
  abbrev expected : ℕ → ℕ → List ℕ → ℕ → ℕ
  expected k i bytes c =
      if leb i c && ltb c (i + k) && writes c then byte_of value c else get_or bytes (addr + c) 0

  -- One round of the loop.
  abbrev round : ℕ → List ℕ → List ℕ
  round i bytes =
      if has_bit mask i && ltb (u64 (addr + i)) 256
      then set bytes (u64 (addr + i)) (byte_of value i)
      else bytes

  round-set :
      (i : ℕ) (bytes : List ℕ)
      → i < 8
      → round i bytes ≡ (if writes i then set bytes (addr + i) (byte_of value i) else bytes)
  round-set i bytes h =
      let e : u64 (addr + i) ≡ addr + i = omega arith in
      ap (λ (n : ℕ). if has_bit mask i && ltb n 256 then set bytes n (byte_of value i) else bytes) e

  length-round : (i : ℕ) (bytes : List ℕ) → length (round i bytes) ≡ length bytes
  length-round i bytes =
      if_either (λ bs. length bs ≡ length bytes) (has_bit mask i && ltb (u64 (addr + i)) 256)
        (length-set bytes (u64 (addr + i)) (byte_of value i)) refl

  round-here :
      (i : ℕ) (bytes : List ℕ)
      → length bytes ≡ 256
      → i < 8
      → get_or (round i bytes) (addr + i) 0
        ≡ (if writes i then byte_of value i else get_or bytes (addr + i) 0)
  round-here i bytes len h =
      ap (λ bs. get_or bs (addr + i) 0) (round-set i bytes h)
      ∙ by_test (writes i) (λ e. ground (arith, e))
    where
      by_test :
          (b : Bool)
          → (b ≡ true → addr + i < 256)
          → get_or (if b then set bytes (addr + i) (byte_of value i) else bytes) (addr + i) 0
            ≡ (if b then byte_of value i else get_or bytes (addr + i) 0)
      by_test true inside =
          get_or-set_self bytes (addr + i) (byte_of value i) 0 (omega (arith, inside refl))
      by_test false inside = refl

  round-elsewhere :
      (i j : ℕ) (bytes : List ℕ)
      → i < 8
      → addr + i ≢ j
      → get_or (round i bytes) j 0 ≡ get_or bytes j 0
  round-elsewhere i j bytes h ne =
      ap (λ bs. get_or bs j 0) (round-set i bytes h)
      ∙ if_either (λ bs. get_or bs j 0 ≡ get_or bytes j 0) (writes i)
          (get_or-set_ne bytes (addr + i) j (byte_of value i) 0 ne) refl

  write_loop-before :
      (k i j : ℕ) (bytes : List ℕ)
      → j < addr
      → i + k ≤ 8
      → get_or (write_loop addr value mask k i bytes) j 0 ≡ get_or bytes j 0
  unfolding write_loop
  write_loop-before zero i j bytes lt h = refl
  write_loop-before (suc k) i j bytes lt h =
      write_loop-before k (i + 1) j (round i bytes) lt (omega arith)
      ∙ round-elsewhere i j bytes (omega arith) (omega arith)

  expected-here :
      (k i : ℕ) (bytes : List ℕ)
      → length bytes ≡ 256
      → i < 8
      → expected k (i + 1) (round i bytes) i ≡ expected (suc k) i bytes i
  expected-here k i bytes len h =
      if_false _ _ past
      ∙ round-here i bytes len h
      ∙ ap (λ b. if b then byte_of value i else get_or bytes (addr + i) 0) now
    where
      past : (leb (i + 1) i && ltb i (i + 1 + k) && writes i) ≡ false
      past = ground arith

      now : writes i ≡ (leb i i && ltb i (i + suc k) && writes i)
      now = ground arith

  expected-elsewhere :
      (k i c : ℕ) (bytes : List ℕ)
      → i < 8
      → c ≢ i
      → expected k (i + 1) (round i bytes) c ≡ expected (suc k) i bytes c
  expected-elsewhere k i c bytes h ne =
      ap₂ (λ b v. if b then byte_of value c else v) same_test
        (round-elsewhere i (addr + c) bytes h (λ e. ne (omega arith)))
    where
      same_test :
          (leb (i + 1) c && ltb c (i + 1 + k) && writes c)
          ≡ (leb i c && ltb c (i + suc k) && writes c)
      same_test = ground arith

  write_loop-expected :
      (k i c : ℕ) (bytes : List ℕ)
      → length bytes ≡ 256
      → i + k ≤ 8
      → get_or (write_loop addr value mask k i bytes) (addr + c) 0 ≡ expected k i bytes c
  unfolding write_loop
  write_loop-expected zero i c bytes len h = sym (if_false _ _ none_left)
    where
      none_left : (leb i c && ltb c (i + 0) && writes c) ≡ false
      none_left = ground arith
  write_loop-expected (suc k) i c bytes len h =
      write_loop-expected k (i + 1) c (round i bytes) (length-round i bytes ∙ len) (omega arith)
      ∙ elim (Bool-cases (c == i)) [
        | inl e ↦
            let same : i ≡ c = ground arith in
            subst (λ c. expected k (i + 1) (round i bytes) c ≡ expected (suc k) i bytes c) same
              (expected-here k i bytes len (omega arith))
        | inr e ↦ expected-elsewhere k i c bytes (omega arith) (ground arith)
      ]

-- The masks of the four access sizes have the lowest `2 ^ size` bits.
matches : ℕ → ℕ → ℕ → Bool
matches mask k zero = true
matches mask k (suc n) =
    let rest = matches mask k n in (if has_bit mask n then ltb n k else not (ltb n k)) && rest

matches-has_bit : (mask k n i : ℕ) → matches mask k n ≡ true → i < n → has_bit mask i ≡ ltb i k
unfolding matches
matches-has_bit mask k zero i h l = absurd (omega arith)
matches-has_bit mask k (suc n) i h l = elim (Bool-cases (i == n)) [
  | inl e ↦
      let same : n ≡ i = ground arith in
      subst (λ i. has_bit mask i ≡ ltb i k) same
        (same_bit (has_bit mask n) (ltb n k) (matches mask k n) h)
  | inr e ↦ matches-has_bit mask k n i (second _ _ h) (ground arith)
]
  where
    same_bit : (a b c : Bool) → ((if a then b else not b) && c) ≡ true → a ≡ b
    same_bit true true c h = refl
    same_bit true false c h = absurd (ground arith)
    same_bit false true c h = absurd (ground arith)
    same_bit false false c h = refl

    second : (a b : Bool) → (a && b) ≡ true → b ≡ true
    second true b h = h
    second false b h = absurd (ground arith)

mask-matches : (size : ℕ) → size < 4 → matches (mask_for_size size) (2 ^ size) 8 ≡ true
unfolding matches mask_for_size
mask-matches zero h = refl
mask-matches (suc zero) h = refl
mask-matches (suc (suc zero)) h = refl
mask-matches (suc (suc (suc zero))) h = refl
mask-matches (suc (suc (suc (suc n)))) h = absurd (omega arith)

size-bound : (size : ℕ) → size < 4 → 2 ^ size ≤ 8
size-bound zero h = omega arith
size-bound (suc zero) h = omega arith
size-bound (suc (suc zero)) h = omega arith
size-bound (suc (suc (suc zero))) h = omega arith
size-bound (suc (suc (suc (suc n)))) h = absurd (omega arith)

size-positive : (size : ℕ) → size < 4 → 0 < 2 ^ size
size-positive zero h = omega arith
size-positive (suc zero) h = omega arith
size-positive (suc (suc zero)) h = omega arith
size-positive (suc (suc (suc zero))) h = omega arith
size-positive (suc (suc (suc (suc n)))) h = absurd (omega arith)

module _ (bytes : List ℕ) (addr value size : ℕ) (are_bytes : AreBytes bytes)
    (len : length bytes ≡ 256) (in_range : addr + 2 ^ size ≤ 256) (small : size < 4) where
  abbrev written : List ℕ
  written = write_bytes bytes addr value (mask_for_size size)

  start_in : addr < 256
  start_in = omega (arith, size-positive size small)

  written_before : (j : ℕ) → j < addr → get_or written j 0 ≡ get_or bytes j 0
  unfolding write_bytes
  written_before j h =
      write_loop-before addr value (mask_for_size size) start_in 8 0 j bytes h (omega arith)

  written-byte :
      (c : ℕ)
      → get_or written (addr + c) 0
        ≡ (if ltb c (2 ^ size) then byte_of value c else get_or bytes (addr + c) 0)
  unfolding write_bytes
  written-byte c =
      write_loop-expected addr value (mask_for_size size) start_in 8 0 c bytes len (omega arith)
      ∙ ap (λ b. if b then byte_of value c else get_or bytes (addr + c) 0)
          (same_test (Bool-cases (ltb c 8)))
    where
      same_test :
          (ltb c 8 ≡ true) ⊎ (ltb c 8 ≡ false)
          → (leb 0 c && ltb c (0 + 8) && (has_bit (mask_for_size size) c && ltb (addr + c) 256))
            ≡ ltb c (2 ^ size)
      same_test (inl e) =
          ap (λ b. leb 0 c && ltb c (0 + 8) && (b && ltb (addr + c) 256))
            (matches-has_bit (mask_for_size size) (2 ^ size) 8 c (mask-matches size small)
              (ground arith))
          ∙ ground (arith, e, in_range)
      same_test (inr e) =
          past_rounds (has_bit (mask_for_size size) c && ltb (addr + c) 256)
          ∙ sym (le→ltb c (2 ^ size) (omega (arith, above, size-bound size small)))
        where
          past_rounds : (b : Bool) → (leb 0 c && ltb c (0 + 8) && b) ≡ false
          past_rounds b = ground arith

          above : 8 ≤ c
          above = ground arith

  written-AreBytes : AreBytes written
  unfolding AreBytes
  written-AreBytes j = elim (Bool-cases (ltb j addr)) [
    | inl e ↦ omega (arith, written_before j (ground arith), are_bytes j)
    | inr e ↦
        let same : addr + (j - addr) ≡ j = ground arith in
        subst (λ j. get_or written j 0 < 256) same
          (subst (λ v. v < 256) (sym (written-byte (j - addr)))
            (if_either (λ v. v < 256) (ltb (j - addr) (2 ^ size))
              (omega (arith, bit_and-low_mask 8 (value >>> (8 * (j - addr)))))
              (are_bytes (addr + (j - addr)))))
  ]

  written-little_endian :
      (n c : ℕ)
      → n + c ≤ 2 ^ size
      → word_at written n (addr + c) ≡ little_endian n (value / 2 ^ (8 * c))
  unfolding word_at little_endian
  written-little_endian zero c h = refl
  written-little_endian (suc n) c h =
      ap₂ (λ b w. b + 256 * w)
        (written-byte c
          ∙ if_true _ _ (lt→ltb c (2 ^ size) (omega arith))
          ∙ bit_and-low_mask 8 (value / 2 ^ (8 * c)))
        (ap (word_at written n) step_start
          ∙ written-little_endian n (c + 1) (omega arith)
          ∙ ap (little_endian n) next_digit)
    where
      step_start : addr + c + 1 ≡ addr + (c + 1)
      step_start = omega arith

      next_digit : value / 2 ^ (8 * (c + 1)) ≡ value / 2 ^ (8 * c) / 256
      next_digit =
          ap (λ (p : ℕ). value / p) (byte_power c)
          ∙ sym (div-div-eq-div-mul value (2 ^ (8 * c)) 256)

  same_bytes :
      addr % 8 + 2 ^ size ≤ 8 → bytes_at (read64 written addr) addr size ≡ bytes_at value 0 size
  same_bytes fits =
      ap (λ d. little_endian (2 ^ size) (d / 2 ^ (addr % 8 * 8)))
        (read64-word_at written addr written-AreBytes (omega (arith, start_in))
          ∙ ap (λ n. word_at written n (addr / 8 * 8)) eight)
      ∙ ap (little_endian (2 ^ size)) (
          drop_bytes written (addr % 8) (2 ^ size + (8 - addr % 8 - 2 ^ size)) (addr / 8 * 8)
            written-AreBytes
          ∙ ap (word_at written (2 ^ size + (8 - addr % 8 - 2 ^ size))) start)
      ∙ low_bytes written (2 ^ size) (8 - addr % 8 - 2 ^ size) (addr + 0) written-AreBytes
      ∙ written-little_endian (2 ^ size) 0 (omega arith)
    where
      eight : 8 ≡ addr % 8 + (2 ^ size + (8 - addr % 8 - 2 ^ size))
      eight = omega arith

      start : addr / 8 * 8 + addr % 8 ≡ addr + 0
      start = omega arith

  written_at :
      (j : ℕ)
      → get_or written j 0 ≡ (
          if leb addr j && ltb j (addr + 2 ^ size)
          then byte_of value (j - addr)
          else get_or bytes j 0)
  written_at j = elim (Bool-cases (ltb j addr)) [
    | inl e ↦
        let outside : (leb addr j && ltb j (addr + 2 ^ size)) ≡ false = ground arith in
        written_before j (ground arith) ∙ sym (if_false _ _ outside)
    | inr e ↦
        let same : addr + (j - addr) ≡ j = ground arith in
        let test : ltb (j - addr) (2 ^ size) ≡ (leb addr j && ltb j (addr + 2 ^ size)) =
          ground arith in
        ap (λ j. get_or written j 0) (sym same)
        ∙ written-byte (j - addr)
        ∙ ap₂ (λ b k. if b then byte_of value (j - addr) else get_or bytes k 0) test same
  ]

  -- A store of one of the four sizes into the memory model of 256 bytes, with the mask that the core
  -- sends, whose bytes lie in the memory and in one doubleword, is read back: a load of the same size and address gives
  -- the lowest bytes of what was stored, extended as that load extends. The store changes exactly its
  -- own bytes.
  pub read64-write_bytes :
      (signed_load : Bool) (j : ℕ)
      → addr % 8 + 2 ^ size ≤ 8
      → (load_value (read64 written addr) addr size signed_load
          ≡ load_value value 0 size signed_load)
        × (get_or written j 0 ≡ (
            if leb addr j && ltb j (addr + 2 ^ size)
            then byte_of value (j - addr)
            else get_or bytes j 0))
  read64-write_bytes signed_load j fits = (
    load_value_lem (read64 written addr) addr size signed_load small
        ∙ ap (λ v. if signed_load then sign_extended size v else v) (same_bytes fits)
        ∙ sym (load_value_lem value 0 size signed_load small),
    written_at j,
  )
