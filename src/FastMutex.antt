-- ===== src/FastMutex.antt =====
-- sync/mutex_extra.hpp, class `fast_mutex`: a word with three states, and an event to sleep on.
pub mod Run
pub mod Safety
