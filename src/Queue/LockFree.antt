-- ===== src/Queue/LockFree.antt =====
-- sync/queue.hpp, class `lock_free_queue`: a ring without a mutex, between two semaphores.
pub mod Run
pub mod Invariant
pub mod Steps
pub mod Bounds
