-- ===== src/Clock.antt =====
-- The conversions of durations for the system, and what waits with a time-out on them.
pub mod Timespec
pub mod Sleep
pub mod Deadline
pub mod Wait
