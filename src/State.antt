-- ===== src/State.antt =====
-- include/boom_state.hpp: the whole state of the core, with what its constructors give.
mod Pipeline
mod Queues
pub use Pipeline.*
pub use Queues.*
