-- ===== src/TimedMutex.antt =====
-- stdlib/mutex.hpp, class `timed_mutex`, alone and under many threads. A method runs under `mtx_` up to
-- its wait; a thread that waits for `locked_` to be false is `none` or finds its time over.
pub mod Safety
use synchronization_library.Prelude.{
  Bool, true, false, ◌&&◌, not, Option, none, some, if◌then◌else◌, ℕ,
}
use synchronization_library.Threads.{System}

pub record TimedMutex : Type 0 where
  pub locked : Bool

unfoldable pub lock : TimedMutex → Option TimedMutex
lock m = if m.locked then none else some (record { locked = true })

-- `owns` is whether the `try_to_lock` on `mtx_` succeeds.
unfoldable pub try_lock : Bool → TimedMutex → Bool × TimedMutex
try_lock owns m = if owns && not m.locked then (true, record { locked = true }) else (false, m)

-- `expired`: the time is over. The flag is looked at once more before giving up.
unfoldable pub try_lock_until : Bool → TimedMutex → Option (Bool × TimedMutex)
try_lock_until expired m =
    if not expired && m.locked
    then none
    else (if m.locked then some (false, m) else some (true, record { locked = true }))

unfoldable pub unlock : TimedMutex → TimedMutex
unlock m = record { locked = false }

pub data Pc : Type 0 where
  idle holding : Pc

pub data Call : Type 0 where
  call_lock call_unlock : Call
  call_try_lock : (owns : Bool) → Call
  call_try_lock_until : (expired : Bool) → Call

abbrev attempt : Bool × TimedMutex → TimedMutex × Pc
attempt (true, m) = (m, holding)
attempt (false, m) = (m, idle)

-- One step of one thread. The mutex is unlocked by the thread that holds it.
unfoldable pub step : Call → TimedMutex → Pc → Option (TimedMutex × Pc)
unfolding lock try_lock try_lock_until unlock
step call_lock m idle = elim (lock m) [ none ↦ none | some m' ↦ some (m', holding) ]
step (call_try_lock owns) m idle = some (attempt (try_lock owns m))
step (call_try_lock_until expired) m idle = elim (try_lock_until expired m) [
  | none ↦ none
  | some r ↦ some (attempt r)
]
step call_unlock m holding = some (unlock m, idle)
step call m p = none

abbrev pub initial : System TimedMutex Pc
initial = record { mem = record { locked = false }; pc = λ _. idle }
