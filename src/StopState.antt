-- ===== src/StopState.antt =====
-- stdlib/stop_token.hpp: the word of a `_stop_state`, the tokens and sources that share one, and
-- the callbacks that `request_stop` calls.
pub mod Word
pub mod Fields
pub mod References
pub mod Callbacks
pub mod Handles
