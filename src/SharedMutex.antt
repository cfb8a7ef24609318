-- ===== src/SharedMutex.antt =====
-- stdlib/shared_mutex.hpp: `shared_mutex_base`, and `shared_timed_mutex` over it.
pub mod Base
pub mod Wakeups
pub mod Run
pub mod Exclusion
