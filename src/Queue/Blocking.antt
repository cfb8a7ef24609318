-- ===== src/Queue/Blocking.antt =====
-- sync/queue.hpp, class `blocking_queue`: the ring under `mutex_`, and the two semaphores round it.
pub mod Ring
pub mod Fifo
pub mod Run
pub mod Accounts
pub mod Safety
