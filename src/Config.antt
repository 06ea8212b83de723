-- ===== src/Config.antt =====
-- include/boom_config.hpp: the parameters of the configuration that the core reads.
-- FETCH_WIDTH and the cache, memory-map and FPU parameters are read by no code that is modelled.
use boom.Base.{ℕ}

-- DISPATCH_WIDTH is 1: the arrays of one lane are modelled by their one element, and the loops over
-- them by one round.
abbrev pub issue_width : ℕ
issue_width = 3

abbrev pub rob_depth : ℕ
rob_depth = 32

abbrev pub int_phys_regs : ℕ
int_phys_regs = 52

abbrev pub fp_phys_regs : ℕ
fp_phys_regs = 48

abbrev pub logical_reg_count : ℕ
logical_reg_count = 32

abbrev pub issue_queue_mem_depth : ℕ
issue_queue_mem_depth = 8

abbrev pub issue_queue_alu_depth : ℕ
issue_queue_alu_depth = 8

abbrev pub ldq_depth : ℕ
ldq_depth = 8

abbrev pub stq_depth : ℕ
stq_depth = 8

abbrev pub max_branch_count : ℕ
max_branch_count = 8

abbrev pub reset_vector : ℕ
reset_vector = 0x10040
