-- ===== src/Tests.antt =====
-- The theorems at concrete inputs, and runs of the models.
mod BlockingQueue
mod SharedMutex
mod FastMutex
mod MultiLock
mod StopState
mod Latch
mod Barrier
mod TimedMutex
mod RecursiveTimedMutex
mod Locks
mod FastSemaphore
mod Spinlock
mod Callbacks
mod FastSharedMutex
mod LockFreeQueue
mod ThreadPool
mod Handles
mod SimpleQueue
mod Thread
mod Clock
mod CallOnce
mod SimplePool
mod StealingPool
mod OsMutex
