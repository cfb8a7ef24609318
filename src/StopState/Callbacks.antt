-- ===== src/StopState/Callbacks.antt =====
-- stdlib/stop_token.hpp: the callbacks of a stop state.
pub mod Links
pub mod Chain
pub mod Unlink
pub mod Run
pub mod Invariant
pub mod Changes
pub mod Lifetime
