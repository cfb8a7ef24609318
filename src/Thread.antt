-- ===== src/Thread.antt =====
-- stdlib/_thread.hpp, class `thread`, and stdlib/thread.hpp, class `jthread`, over the POSIX branch of
-- stdlib/internal/sync_thread.hpp.
pub mod Base
pub mod Owners
pub mod Jthread
pub mod Pairs
pub mod Joined
