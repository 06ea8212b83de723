-- ===== src/Types.antt =====
-- include/boom_types.hpp: the micro-operation, the entries of the queues, and the messages to memory.
pub mod Codes
pub mod Uop
pub mod Entries
pub mod Messages
