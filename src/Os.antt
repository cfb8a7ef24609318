-- ===== src/Os.antt =====
-- What only passes its calls on to the operating system: `mutex`, `recursive_mutex` and `os::rw_mutex`,
-- over interfaces that say what the system does.
pub mod Calls
pub mod Mutex
pub mod Rwlock
pub mod Exclusion
