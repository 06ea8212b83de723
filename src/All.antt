-- ===== src/All.antt =====
-- src/boom_all.cpp, the earlier core in one file, on the structs of include/boom_types.hpp and
-- include/boom_state.hpp.
pub mod Rvc
pub mod Csr
pub mod Snapshots
pub mod Queue
pub mod Decode
pub mod Multiply
pub mod Divider
pub mod Alu
pub mod Branch
pub mod Rename
pub mod Rob
pub mod Issue
pub mod Execute
pub mod Step
