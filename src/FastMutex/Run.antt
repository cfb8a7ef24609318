-- ===== src/FastMutex/Run.antt =====
-- sync/mutex_extra.hpp, class `fast_mutex`, one atomic access of one thread at a time.
use synchronization_library.Prelude.{ℕ, Bool, true, false, Option, none, some, ◌==◌, if◌then◌else◌}
use synchronization_library.Threads.{System}
use synchronization_library.Event.Auto
use synchronization_library.Event.{Event}

-- `state_` (0 is free, 1 is held, 2 is held with threads that may sleep) and `event_`.
pub record FastMutex : Type 0 where
  pub state : ℕ
  pub event : Event

-- Where a thread stands.
pub data Pc : Type 0 where
  idle : Pc
  contending : Pc  -- in the loop of `lock`, before `state_.exchange(2)`
  sleeping : Pc  -- in `event_.wait()`
  holding : Pc  -- holds the mutex
  signaling : Pc  -- in `unlock`, before `event_.signal()`

pub data Call : Type 0 where
  lock : Call
  try_lock : (spurious : Bool) → Call  -- `compare_exchange_weak` may fail on a free mutex
  unlock : Call
  go : Call  -- the next step of a call that has begun

-- `exchange(1)`, the first access of `lock`.
abbrev lock_first : FastMutex → FastMutex × Pc
lock_first m =
    if m.state == 0 then (record m { state = 1 }, holding) else (record m { state = 1 }, contending)

-- `exchange(2)`, the test of its loop.
abbrev lock_again : FastMutex → FastMutex × Pc
lock_again m =
    if m.state == 0 then (record m { state = 2 }, holding) else (record m { state = 2 }, sleeping)

abbrev lock_sleep : FastMutex → Option (FastMutex × Pc)
lock_sleep m = elim (Auto.wait m.event) [
  | none ↦ none
  | some e ↦ some (record m { event = e }, contending)
]

abbrev try_lock_once : Bool → FastMutex → FastMutex × Pc
try_lock_once true m = (m, idle)
try_lock_once false m = if m.state == 0 then (record m { state = 1 }, holding) else (m, idle)

-- `exchange(0)` in `unlock`.
abbrev unlock_first : FastMutex → FastMutex × Pc
unlock_first m =
    if m.state == 2 then (record m { state = 0 }, signaling) else (record m { state = 0 }, idle)

-- One step of one thread. The mutex is unlocked by the thread that holds it.
unfoldable pub step : Call → FastMutex → Pc → Option (FastMutex × Pc)
unfolding Auto.wait Auto.signal
step lock m idle = some (lock_first m)
step (try_lock spurious) m idle = some (try_lock_once spurious m)
step unlock m holding = some (unlock_first m)
step go m contending = some (lock_again m)
step go m sleeping = lock_sleep m
step go m signaling = some (record m { event = Auto.signal m.event }, idle)
step call m p = none

abbrev pub initial : System FastMutex Pc
initial = record { mem = record { state = 0; event = record { signaled = false } }; pc = λ _. idle }
