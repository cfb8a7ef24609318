-- ===== src/ThreadPool.antt =====
-- sync/thread_pool.hpp: in which order `work_stealing_thread_pool` tries its queues, and the threads of
-- both pools.
pub mod Dispatch
pub mod Coverage
pub mod Simple
pub mod Stealing
pub mod Counts
pub mod Tasks
pub mod Served
