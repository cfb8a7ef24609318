-- ===== src/Lib.antt =====
-- Synchronization-Library: the models of its locks, semaphores, events, queues, latches, barriers and
-- stop states, and their proofs.
--
-- How the library hangs together. stdlib/ rebuilds the C++ standard library's threading headers over
-- the operating system (stdlib/internal/), and sync/ adds events, semaphores, queues and faster
-- mutexes. An object's fields are guarded by a mutex, which makes each critical section one step, or
-- are atomics, which makes each access one step. A wait on a condition variable gives the mutex back
-- and looks at its test again when it is woken; as it may also be woken with no reason, it is taken to
-- look again at any time, and until its test lets it pass the thread cannot move.
--
-- The files, and the code that they model:
--   Prelude    the names, tests on numbers and list lemmas that the other files share.
--   Threads    threads over one memory: the step of a thread is a function of its call, the memory and
--              where the thread stands, `none` where it has to wait; Step and Reach are the relations
--              that any scheduler and any callers give, for any number of threads. Threads/Total sums
--              a weight over the threads, and Threads/Schedule runs a list of calls.
--   Semaphore  sync/semaphore.hpp, class semaphore: one function per method.
--   Event      sync/event.hpp: manual_event and auto_event, one function per method.
--   Queue      sync/queue.hpp. Of class blocking_queue, Blocking/Ring has the critical sections of push and
--              pop on the storage, where a slot with no object is `none`; Blocking/Run has the methods
--              as steps round these, over the semaphores of Semaphore. Simple has class
--              simple_blocking_queue, whose methods are calls in some order. LockFree has class lock_free_queue:
--              Run the methods, Invariant the sums that its counts stand for, Steps what a step does to
--              them.
--   ThreadPool  sync/thread_pool.hpp. Dispatch has the order in which work_stealing_thread_pool tries its
--              queues, where a call is the list of its tries, which Coverage counts. Stealing has its
--              threads, the workers and those who post, and Simple those of simple_thread_pool, both over
--              the class of Queue/Simple. A task that posts counts as one more thread that posts, while
--              its worker runs on.
--   FastSemaphore  sync/semaphore.hpp, class fast_semaphore, over the semaphore of Semaphore.
--   Spinlock   sync/mutex_extra.hpp, class spinlock_mutex.
--   FastMutex  sync/mutex_extra.hpp, class fast_mutex, over the event of Event/Auto.
--   FastSharedMutex  sync/mutex_extra.hpp, class fast_shared_mutex, over the semaphore of Semaphore.
--              Invariant has the sums over the threads that its counts stand for, Readers and Writers
--              what each step does to them.
--   SharedMutex  stdlib/shared_mutex.hpp: Base has the methods of shared_mutex_base and the timed
--              methods of shared_timed_mutex as functions on `state_` that also tell who is notified,
--              Run the threads.
--   TimedMutex, RecursiveTimedMutex  stdlib/mutex.hpp: timed_mutex and recursive_timed_mutex.
--   MultiLock  stdlib/mutex.hpp: try_lock, lock, _lock_first and _unlock. A call is the list of the locks
--              and unlocks that it makes. Guards has the objects that lock for the length of a block,
--              scoped_lock and the lock_guard of stdlib/_mutex.hpp.
--   CallOnce   stdlib/mutex.hpp, once_flag and call_once.
--   Locks      stdlib/_mutex.hpp, class unique_lock, in Unique, and stdlib/shared_mutex.hpp, class
--              shared_lock, in Shared: any number of objects of one thread. Handle has the fields of both and
--              the holds of the thread on its mutexes, Balance what both proofs share, and Accounts and
--              SharedAccounts the holds that lose their object, or never had one, in each method.
--   Latch      stdlib/latch.hpp.
--   Barrier    stdlib/barrier.hpp: Run has barrier, Flex has flex_barrier.
--   StopState  stdlib/stop_token.hpp: Word has the operations of _stop_state on `state_`, Fields what the
--              word stands for, References what sources and tokens do to the counts of one state. In Handles,
--              Use has the methods of stop_token and stop_source on any number of objects and states,
--              and Counts and Changes what they do to the counts. In Callbacks, Links
--              has the linked list of callbacks, which Chain and Unlink read as a list of nodes; Run has
--              one request_stop, with objects of stop_callback that are made and destroyed meanwhile.
--   Clock      what waits with a time-out. Timespec has the conversions of stdlib/internal/sync_cond.hpp and
--              sync_thread.hpp, Deadline and Wait the waits of condition_variable in stdlib/_mutex.hpp,
--              and Sleep has sync_thread_sleep_for.
--   Thread     stdlib/_thread.hpp, class thread, in Base, and stdlib/thread.hpp, class jthread, in Jthread:
--              the objects of one program, and the system's threads by their handle, which the system
--              may give again. A call that waits, as a join does for a thread that runs, is an outcome,
--              and the end of a thread is an event of its own. Owners, Pairs and
--              Joined have the proofs.
--   Os         mutex of stdlib/_mutex.hpp and recursive_mutex of stdlib/mutex.hpp, in Mutex, and os::rw_mutex
--              of sync/mutex_extra.hpp, in Rwlock and Exclusion, over stdlib/internal/sync_mutex.hpp. What
--              the system does is an interface with laws, PthreadMutex and PthreadRwlock, and Calls has
--              what the code makes of its answers.
--   Tests      the theorems at concrete inputs, and runs of the models.
--
-- Numbers are natural numbers with the wrap-around of their type written out: 32 bits for an unsigned
-- int, 64 for size_t, ptrdiff_t and uint64_t (a negative ptrdiff_t is its two's complement). The count
-- of a semaphore is an unsigned long, of 64 bits. Memory is sequentially consistent: a weaker order of
-- an atomic access is not modelled. Outside Clock whether a deadline has passed when a wait looks at its
-- clock is an argument of the step, so that the theorems hold for every clock. In Clock durations and
-- times are whole nanoseconds, a duration as an integer and a time since the epoch of its clock as a
-- natural number, and what the clocks show are arguments.
--
-- sync_thread_sleep_for runs on fuel, one for each call of nanosleep, and fuel beyond the number of some
-- call that no signal interrupts is enough. nanosleep itself is a parameter with its documented
-- behaviour as a hypothesis. The waits of Clock/Wait take a list of rounds, one for each time that the
-- loop asks its predicate. The other fuel is the list of rounds of MultiLock's lock, one entry for each
-- time that it goes round its loop, which tells what other threads hold in that round. The loop has no
-- bound in the code; how many rounds are enough depends on the other threads, and HasQuietRound of
-- MultiLock/Progress says it.
--
-- Where the code does not compile as it stands, the model takes the reading that its text leaves no
-- doubt about: the wait in lock_shared waits, lock_free_queue::try_pop, which returns a bool
-- as an optional<T>, returns the object or nothing, the one_ of simple_blocking_queue is the done_ that its methods use, and the opt that its pop and try_pop
-- return is the object that they took. Some methods compile and have no return, so that what happens
-- after them is undefined: blocking_queue::pop and shared_mutex::try_lock_shared are modelled up to
-- their end, and taken to return the object moved out and what the base answers; after a try of
-- os::rw_mutex the thread makes no step, and the others go on.
--
-- Of stdlib/internal/ and of the handles of threads the POSIX branch is modelled.
--
-- Not modelled: the other wrappers of the operating system in stdlib/internal/, which are single calls
-- of it, and the os barriers that only pass calls on to them; the notifications of condition_variable,
-- for the same reason; the move assignment of shared_lock, which does not compile; the futures and tasks
-- of the thread pools, which are of the C++ library.
pub mod Prelude
pub mod Threads
pub mod Semaphore
pub mod Event
pub mod Queue
pub mod ThreadPool
pub mod FastSemaphore
pub mod Spinlock
pub mod FastMutex
pub mod FastSharedMutex
pub mod SharedMutex
pub mod TimedMutex
pub mod RecursiveTimedMutex
pub mod MultiLock
pub mod Locks
pub mod Latch
pub mod Barrier
pub mod StopState
pub mod CallOnce
pub mod Clock
pub mod Thread
pub mod Os
pub mod Tests
