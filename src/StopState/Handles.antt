-- ===== src/StopState/Handles.antt =====
-- stdlib/stop_token.hpp: the objects of the classes `stop_token` and `stop_source`.
pub mod Use
pub mod Counts
pub mod Changes
pub mod Lifetime
