-- ===== src/MultiLock.antt =====
-- stdlib/mutex.hpp: `try_lock`, `lock` and `_unlock` over several mutexes at once, and the
-- guards of a block.
pub mod Defs
pub mod TryLock
pub mod Lock
pub mod Progress
pub mod Guards
