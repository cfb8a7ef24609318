-- ===== src/FastSemaphore.antt =====
-- sync/semaphore.hpp: `fast_semaphore`.
pub mod Run
pub mod Safety
