-- ===== src/All/Divider/Finish.antt =====
-- `execute_divider_step` of src/boom_all.cpp: how a division ends, and with what value.
use boom.Base.{
  ℕ, zero, suc, ◌/◌, ◌%◌, ◌^◌, ◌<◌, true, false, not, ◌&&◌, ◌==◌, if◌then◌else◌, ◌≡◌, ◌≢◌, ◌⊎◌, inl,
  inr, refl, sym, ap, ◌∙◌, subst, arith, Bool-cases, if_true, if_false,
}
use boom.Types.Uop.{MicroOp}
use boom.State.{alu_result_init}
use boom.All.Multiply.{ones, is_negative, magnitude}
use boom.All.Divider.{
  DividerState, DividerStep, execute_divider_step, advance, deliver, by_zero, start_count,
  final_value, is_rem, is_unsigned,
}

-- The divider after `n` calls, and what the call after them gives.
unfoldable pub after : ℕ → DividerState → DividerState
after zero d = d
after (suc n) d = (execute_divider_step alu_result_init (after n d)).state

unfoldable pub call_after : ℕ → DividerState → DividerStep
call_after n d = execute_divider_step alu_result_init (after n d)

pub record IsStarted (d : DividerState) : Type 0 where
  pub is_busy : d.busy ≡ true
  pub no_count : d.count ≡ 0
  pub divisor_fits : d.divisor < 2 ^ 64

pub IsPending : DividerStep → Type 0
IsPending s = (s.result.valid ≡ false) × (s.flag ≡ true) × (s.state.busy ≡ true)

-- The operands of the division, without their signs.
abbrev pub operand : DividerState → ℕ → ℕ
operand d x = if d.is_signed then magnitude x else x

-- What a division gives. A signed quotient is the one of the state, which no step computes.
unfoldable pub outcome : DividerState → ℕ
outcome d =
    if not (is_unsigned d.uop.uopc) && not (is_rem d.uop.uopc)
    then (if d.divisor == 0
        then (if d.is_signed && is_negative d.dividend then 1 else ones)
        else d.quotient)
    else if d.divisor == 0
    then (if is_rem d.uop.uopc then d.dividend else ones)
    else if is_rem d.uop.uopc
    then operand d d.dividend % operand d d.divisor
    else operand d d.dividend / operand d d.divisor

-- The result is the operation's, with that value, and the divider is free.
unfoldable pub IsFinal : MicroOp → ℕ → DividerStep → Type 0
IsFinal u v s =
    (s.result.valid ≡ true)
    × (s.result.result ≡ v)
    × (s.result.uop ≡ u)
    × (s.flag ≡ false)
    × (s.state.busy ≡ false)

abbrev pub calls_needed : DividerState → ℕ
calls_needed d = if d.divisor == 0 then 1 else 64

-- A division by zero ends in the first call.
by_zero-IsFinal :
    (d : DividerState) → IsStarted d → d.divisor ≡ 0 → IsFinal d.uop (outcome d) (call_after 0 d)
unfolding call_after after execute_divider_step advance deliver by_zero final_value IsFinal outcome
by_zero-IsFinal d h z =
    let b = h.is_busy in
    let c = h.no_count in (ground arith, ground arith, ground arith, ground arith, ground arith)

-- The state after the first call, when the divisor is not zero.
abbrev begun : DividerState → DividerState
begun d = record d { dividend = operand d d.dividend; divisor = operand d d.divisor; remainder = 0 }

first_call :
    (d : DividerState)
    → IsStarted d
    → d.divisor ≢ 0
    → (execute_divider_step alu_result_init d).state ≡ record (begun d) { count = 1 }
unfolding execute_divider_step advance deliver start_count
first_call d h z = let b = h.is_busy in let c = h.no_count in ground arith

later_call :
    (d : DividerState) (n : ℕ)
    → d.busy ≡ true
    → d.divisor ≢ 0
    → d.count ≡ suc n
    → n < 62
    → (execute_divider_step alu_result_init d).state ≡ record d { count = suc (suc n) }
unfolding execute_divider_step advance deliver start_count
later_call d n b z c l = ground arith

begun-divisor : (d : DividerState) → IsStarted d → d.divisor ≢ 0 → operand d d.divisor ≢ 0
begun-divisor d h z = let f = h.divisor_fits in ground arith

after-begun :
    (n : ℕ) (d : DividerState)
    → IsStarted d
    → d.divisor ≢ 0
    → n < 63
    → after (suc n) d ≡ record (begun d) { count = suc n }
unfolding after
after-begun zero d h z l = first_call d h z
after-begun (suc n) d h z l =
    ap (λ s. (execute_divider_step alu_result_init s).state) (after-begun n d h z (omega arith))
    ∙ later_call (record (begun d) { count = suc n }) n h.is_busy (begun-divisor d h z) refl
        (omega arith)

call-IsPending :
    (d : DividerState)
    → d.busy ≡ true
    → d.divisor ≢ 0
    → d.count < 63
    → IsPending (execute_divider_step alu_result_init d)
unfolding IsPending execute_divider_step advance deliver start_count
call-IsPending d b z c = (ground arith, ground arith, ground arith)

early-IsPending :
    (n : ℕ) (d : DividerState) → IsStarted d → d.divisor ≢ 0 → n < 63 → IsPending (call_after n d)
unfolding call_after after
early-IsPending zero d h z l = call-IsPending d h.is_busy z (omega (arith, h.no_count))
early-IsPending (suc n) d h z l =
    subst (λ s. IsPending (execute_divider_step alu_result_init s))
      (sym (after-begun n d h z (omega arith)))
      (call-IsPending (record (begun d) { count = suc n }) h.is_busy (begun-divisor d h z) l)

last_call-IsFinal :
    (d : DividerState)
    → IsStarted d
    → d.divisor ≢ 0
    → IsFinal d.uop
        (outcome d)
        (execute_divider_step alu_result_init (record (begun d) { count = 63 }))
unfolding IsFinal outcome execute_divider_step advance deliver start_count final_value
last_call-IsFinal d h z =
    let b = h.is_busy in
    let nz = begun-divisor d h z in
    (ground arith, ground arith, ground arith, ground arith, ground arith)

late-IsFinal :
    (d : DividerState) → IsStarted d → d.divisor ≢ 0 → IsFinal d.uop (outcome d) (call_after 63 d)
unfolding call_after
late-IsFinal d h z =
    subst (λ s. IsFinal d.uop (outcome d) (execute_divider_step alu_result_init s))
      (sym (after-begun 62 d h z (omega arith))) (last_call-IsFinal d h z)

-- The call after `n` gives nothing, or is the last of `k` and delivers.
abbrev pub EndsAfter : ℕ → MicroOp → ℕ → ℕ → DividerState → Type 0
EndsAfter k u v n d =
    ((suc n < k) × IsPending (call_after n d)) ⊎ ((suc n ≡ k) × IsFinal u v (call_after n d))

pub division_ends :
    (d : DividerState) (n : ℕ)
    → IsStarted d
    → n < calls_needed d
    → EndsAfter (calls_needed d) d.uop (outcome d) n d
division_ends d n h l = elim (Bool-cases (d.divisor == 0)) [
  | inl e ↦
      let k : calls_needed d ≡ 1 = if_true 1 64 e in
      let z : d.divisor ≡ 0 = ground arith in
      let first : 0 ≡ n = omega arith in
      inr (
        omega arith,
        subst (λ n. IsFinal d.uop (outcome d) (call_after n d)) first (by_zero-IsFinal d h z),
      )
  | inr e ↦
      let k : calls_needed d ≡ 64 = if_false 1 64 e in
      let z : d.divisor ≢ 0 = ground arith in
      elim (Bool-cases (n == 63)) [
        | inl last ↦
            let same : 63 ≡ n = ground arith in
            inr (
              omega arith,
              subst (λ n. IsFinal d.uop (outcome d) (call_after n d)) same (late-IsFinal d h z),
            )
        | inr early ↦
            let below : n < 63 = ground (arith, k) in
            inl (omega arith, early-IsPending n d h z below)
      ]
]
