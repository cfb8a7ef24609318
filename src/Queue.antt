-- ===== src/Queue.antt =====
-- sync/queue.hpp: the three queues, and the ring of slots that two of them share.
pub mod Slots
pub mod Blocking
pub mod LockFree
pub mod Simple
