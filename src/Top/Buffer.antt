-- ===== src/Top/Buffer.antt =====
-- The reorder buffer in every state that the loop of src/boom_core_top.cpp reaches.
use boom.Base.{ℕ, zero, suc, ◌+◌, ◌-◌, ◌%◌, refl, ap, sym, ◌∙◌, arith, le→ltb, get_or-replicate}
use boom.Types.Entries.{RobEntry, rob_entry_init}
use boom.State.{rob_internal_state_init}
use boom.Rob.Queue.{IsValid}
use boom.Core.Buffer.{boom_core_step-IsValid}
use boom.Top.{System, Ports, core_cycle, run, power_on}

pub init-IsValid : IsValid rob_internal_state_init
init-IsValid = record {
  entries_length = refl;
  head_in = omega arith;
  tail_in = omega arith;
  full_meets = λ e. refl;
  live = λ i hi.
      ap (λ (e : RobEntry). e.valid) (get_or-replicate 32 i rob_entry_init)
      ∙ sym (le→ltb ((i + 32 - 0) % 32) 0 (omega arith));
}

core_cycle-IsValid : (y : System) → IsValid y.core.rob → IsValid (core_cycle y).core.rob
unfolding core_cycle
core_cycle-IsValid y v = boom_core_step-IsValid y.core _ v

run-IsValid_from : (n : ℕ) (y : System) → IsValid y.core.rob → IsValid (run n y).core.rob
unfolding run
run-IsValid_from zero y v = v
run-IsValid_from (suc n) y v = run-IsValid_from n (core_cycle y) (core_cycle-IsValid y v)

-- After any number of cycles from reset, whatever the memories answer, the reorder buffer is valid: its
-- head and tail are in range, a full buffer has its tail at its head, and exactly the entries from the
-- head up to the tail are valid.
pub run-IsValid : (n : ℕ) (ports : Ports) → IsValid (run n (power_on ports)).core.rob
run-IsValid n ports = run-IsValid_from n (power_on ports) init-IsValid
