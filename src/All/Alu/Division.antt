-- ===== src/All/Alu/Division.antt =====
-- The divisions of src/boom_all.cpp, from `execute_alu_unit` to the end of `execute_divider_step`.
use boom.Base.{
  ℕ, ◌^◌, ◌%◌, ◌/◌, ◌<◌, Bool, true, false, not, ◌&&◌, if◌then◌else◌, ◌≡◌, refl, subst, sym, arith,
  if_true, ap, ◌∙◌, ◌==◌,
}
use boom.Types.Uop.{MicroOp}
use boom.State.{AluResult}
use boom.All.Multiply.{ones, is_negative, magnitude}
use boom.All.Divider.{DividerState, is_rem, is_unsigned}
use boom.All.Divider.Finish.{IsStarted, EndsAfter, calls_needed, division_ends, outcome, operand}
use boom.All.Alu.{
  AluStep, execute_alu_unit, start_division, begin_division, is_division, is_signed_division,
  division_operand,
}

division_operand_fits : (u : MicroOp) (x : ℕ) → x < 2 ^ 64 → division_operand u x < 2 ^ 64
division_operand_fits u x h = ground arith

-- The divider after `execute_alu_unit`, and what a division should be told to give: the operands are the
-- registers, or for a signed operation on words their lower halves with their signs.
unfoldable pub started : AluResult → MicroOp → ℕ → ℕ → ℕ → Bool → DividerState → DividerState
started r u rs1 rs2 pc flag d = (execute_alu_unit r u rs1 rs2 pc flag d).div_state

-- The value of each division: a remainder of the magnitudes, an unsigned quotient, and, for `div` and
-- `divw`, 0, or what division by zero gives.
unfoldable pub delivered_value : MicroOp → ℕ → ℕ → ℕ
delivered_value u rs1 rs2 =
    let a = division_operand u rs1 in
    let b = division_operand u rs2 in
    if b == 0
    then (if is_rem u.uopc
        then a
        else if is_signed_division u.uopc && is_negative a
        then 1
        else ones)
    else if is_rem u.uopc
    then (if is_signed_division u.uopc then magnitude a % magnitude b else a % b)
    else if is_signed_division u.uopc
    then 0
    else a / b

-- The calls that a division needs.
unfoldable pub calls_for : MicroOp → ℕ → ℕ
calls_for u rs2 = if division_operand u rs2 == 0 then 1 else 64

unsigned-signed : (c : ℕ) → is_division c ≡ true → is_unsigned c ≡ not (is_signed_division c)
unsigned-signed c h = ground arith

-- The tests of `execute_divider_step` in the order of `delivered_value`.
reorder_tests :
    (rem signed : Bool) (a b : ℕ)
    → (if not (not signed) && not rem
        then (if b == 0 then (if signed && is_negative a then 1 else ones) else 0)
        else if b == 0
        then (if rem then a else ones)
        else if rem
        then (if signed then magnitude a else a) % (if signed then magnitude b else b)
        else (if signed then magnitude a else a) / (if signed then magnitude b else b))
      ≡ (if b == 0
          then (if rem then a else if signed && is_negative a then 1 else ones)
          else if rem
          then (if signed then magnitude a % magnitude b else a % b)
          else if signed
          then 0
          else a / b)
reorder_tests true true a b = refl
reorder_tests true false a b = refl
reorder_tests false true a b = refl
reorder_tests false false a b = refl

outcome-begin_division :
    (u : MicroOp) (rs1 rs2 : ℕ)
    → is_division u.uopc ≡ true
    → outcome (begin_division u rs1 rs2) ≡ delivered_value u rs1 rs2
unfolding outcome delivered_value
outcome-begin_division u rs1 rs2 h =
    ap (λ b. if not b && not (is_rem u.uopc) then signed_quotient else other)
      (unsigned-signed u.uopc h)
    ∙ reorder_tests (is_rem u.uopc) (is_signed_division u.uopc) (division_operand u rs1)
        (division_operand u rs2)
  where
    signed_quotient : ℕ
    signed_quotient =
        if division_operand u rs2 == 0
        then (if is_signed_division u.uopc && is_negative (division_operand u rs1) then 1 else ones)
        else 0

    other : ℕ
    other =
        let op1 = operand (begin_division u rs1 rs2) (division_operand u rs1) in
        let op2 = operand (begin_division u rs1 rs2) (division_operand u rs2) in
        if division_operand u rs2 == 0
        then (if is_rem u.uopc then division_operand u rs1 else ones)
        else if is_rem u.uopc
        then op1 % op2
        else op1 / op2

begin_division-IsStarted :
    (u : MicroOp) (rs1 rs2 : ℕ) → rs2 < 2 ^ 64 → IsStarted (begin_division u rs1 rs2)
begin_division-IsStarted u rs1 rs2 fits = record {
  is_busy = refl;
  no_count = refl;
  divisor_fits = division_operand_fits u rs2 fits;
}

started-begin_division :
    (r : AluResult) (u : MicroOp) (rs1 rs2 pc : ℕ) (flag : Bool) (d : DividerState)
    → is_division u.uopc ≡ true
    → d.busy ≡ false
    → started r u rs1 rs2 pc flag d ≡ begin_division u rs1 rs2
unfolding started execute_alu_unit start_division
started-begin_division r u rs1 rs2 pc flag d h idle =
    ap (λ (s : AluStep). s.div_state) (if_true _ _ h) ∙ if_true _ _ (ap not idle)

-- A division by a number below 2^64 that `execute_alu_unit` starts on an idle divider ends: by zero
-- in the first call of `execute_divider_step`, otherwise in the 64th. No call before that one gives a
-- result, and after it the divider is free again. That call gives for divu and remu, and for divuw
-- and remuw as well, the quotient and the remainder of the whole registers; for div and divw 0; for
-- rem and remw the remainder of the magnitudes without a sign, of the lower halves for remw; by zero
-- the dividend for a remainder, 1 for div and divw with a negative dividend, and otherwise all ones.
pub started_ends :
    (r : AluResult) (u : MicroOp) (rs1 rs2 pc : ℕ) (flag : Bool) (d : DividerState) (n : ℕ)
    → is_division u.uopc ≡ true
    → d.busy ≡ false
    → rs2 < 2 ^ 64
    → n < calls_for u rs2
    → EndsAfter (calls_for u rs2) u (delivered_value u rs1 rs2) n (started r u rs1 rs2 pc flag d)
unfolding calls_for
started_ends r u rs1 rs2 pc flag d n h idle fits below =
    subst (EndsAfter (calls_needed (begin_division u rs1 rs2)) u (delivered_value u rs1 rs2) n)
      (sym (started-begin_division r u rs1 rs2 pc flag d h idle))
      (subst
        (λ v. EndsAfter (calls_needed (begin_division u rs1 rs2)) u v n (begin_division u rs1 rs2))
        (outcome-begin_division u rs1 rs2 h)
        (division_ends (begin_division u rs1 rs2) n (begin_division-IsStarted u rs1 rs2 fits)
          below))
