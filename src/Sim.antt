-- ===== src/Sim.antt =====
-- The driver of the Verilator simulation, reference/verilator_trace/standalone_boom_trace.cpp.
pub mod Memory
pub mod Axi
pub mod Load
pub mod Trace
pub mod Driver
