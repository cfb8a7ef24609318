-- ===== src/FastSharedMutex.antt =====
-- sync/mutex_extra.hpp: `fast_shared_mutex`.
pub mod Run
pub mod Invariant
pub mod Readers
pub mod Writers
pub mod Safety
