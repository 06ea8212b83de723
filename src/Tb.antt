-- ===== src/Tb.antt =====
-- The testbenches under tb: instruction encoders, memory models, the runs of the core, and the comparison
-- of traces.
pub mod Encode
pub mod Memory
pub mod Json
pub mod Match
pub mod Entries
pub mod Bench
pub mod Prefix
