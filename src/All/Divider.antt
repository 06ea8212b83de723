-- ===== src/All/Divider.antt =====
-- `DividerState` and `execute_divider_step` of src/boom_all.cpp. The file's one divider, `div_state`, is
-- passed in and out.
pub mod Finish
use boom.Base.{
  ℕ, ◌+◌, ◌-◌, ◌/◌, ◌%◌, ◌^◌, Bool, true, false, not, ◌&&◌, ◌||◌, ◌==◌, ltb, if◌then◌else◌,
}
use boom.Types.Uop.{MicroOp, micro_op_init}
use boom.State.{AluResult}
use boom.Decode.Uopc
use boom.All.Multiply.{ones, is_negative, magnitude}

pub record DividerState : Type 0 where
  pub busy : Bool
  pub is_signed : Bool
  pub is_word : Bool
  pub dividend : ℕ
  pub divisor : ℕ
  pub pdst : ℕ
  pub rob_idx : ℕ
  pub count : ℕ
  pub quotient : ℕ
  pub remainder : ℕ
  pub uop : MicroOp

abbrev pub divider_state_init : DividerState
divider_state_init = record {
  busy = false;
  is_signed = false;
  is_word = false;
  dividend = 0;
  divisor = 0;
  pdst = 0;
  rob_idx = 0;
  count = 0;
  quotient = 0;
  remainder = 0;
  uop = micro_op_init;
}

-- The three places that one call writes: the result, the caller's flag and the divider.
pub record DividerStep : Type 0 where
  pub result : AluResult
  pub flag : Bool
  pub state : DividerState

-- Lines 1510 to 1516.
unfoldable pub by_zero : DividerState → DividerState
by_zero d = record d {
  quotient = if d.is_signed && is_negative d.dividend then 1 else ones;
  remainder = d.dividend;
  count = 64;
}

-- Lines 1520 to 1531.
unfoldable pub start_count : DividerState → DividerState
start_count d =
    if d.count == 0
    then record d {
      dividend = if d.is_signed then magnitude d.dividend else d.dividend;
      divisor = if d.is_signed then magnitude d.divisor else d.divisor;
      remainder = 0;
    }
    else d

-- Lines 1508 to 1534: one step of the count.
unfoldable pub advance : DividerState → DividerState
unfolding by_zero start_count
advance d =
    if ltb d.count 64
    then (if d.divisor == 0
        then by_zero d
        else record (start_count d) { count = (start_count d).count + 1 })
    else d

abbrev pub is_rem : ℕ → Bool
is_rem c = c == Uopc.rem || c == Uopc.remu || c == Uopc.remw || c == Uopc.remuw

abbrev pub is_unsigned : ℕ → Bool
is_unsigned c = c == Uopc.divu || c == Uopc.remu || c == Uopc.divuw || c == Uopc.remuw

-- Lines 1543 to 1556: the value when the count has ended.
unfoldable pub final_value : DividerState → ℕ
final_value d =
    if not (is_unsigned d.uop.uopc) && not (is_rem d.uop.uopc)
    then d.quotient
    else if d.divisor == 0
    then (if is_rem d.uop.uopc
        then d.dividend
        else if is_unsigned d.uop.uopc
        then ones
        else if d.dividend == 2 ^ 63
        then d.dividend
        else ones)
    else if is_rem d.uop.uopc
    then d.dividend % d.divisor
    else d.dividend / d.divisor

-- Lines 1536 to 1564.
unfoldable pub deliver : AluResult → DividerState → DividerStep
unfolding final_value
deliver r d =
    if ltb d.count 64
    then record { result = record r { valid = false }; flag = true; state = d }
    else record {
      result = record r {
        result = final_value d;
        valid = true;
        uop = d.uop;
        exception = false;
        mispredict = false;
      };
      flag = false;
      state = record d { busy = false };
    }

unfoldable pub execute_divider_step : AluResult → DividerState → DividerStep
unfolding advance deliver
execute_divider_step r d =
    if d.busy
    then deliver r (advance d)
    else record { result = record r { valid = false }; flag = false; state = d }
