-- ===== src/Tests.antt =====
-- Concrete inputs at which the theorems apply: one module for each part of the program.
pub mod Rob
pub mod Lsu
pub mod Execute
pub mod Frontend
pub mod Rename
pub mod Issue
pub mod Decode
pub mod Top
pub mod All
pub mod Bench
pub mod Units
pub mod Sim
pub mod Step
