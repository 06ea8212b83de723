-- ===== src/Csr.antt =====
-- src/csr.cpp: the cycle counter.
use boom.Base.{◌+◌, u64}
use boom.State.{BoomCoreState}

unfoldable pub csr_module : BoomCoreState → BoomCoreState
csr_module s = record s { csr = record s.csr { cycle = u64 (s.csr.cycle + 1) } }
