-- ===== src/Tests/TimedMutex.antt =====
-- `timed_mutex` (stdlib/mutex.hpp) at a concrete schedule.
use synchronization_library.Prelude.{◌≡◌, true, [], ◌∷◌, if◌then◌else◌}
use synchronization_library.Threads.{total}
use synchronization_library.Threads.Schedule.{run, Run}
use synchronization_library.TimedMutex.{
  step, initial, call_lock, call_unlock, call_try_lock, call_try_lock_until,
}
use synchronization_library.TimedMutex.Safety.{is_holding, locked_iff_held}

-- Thread 1 times out, takes the mutex when thread 0 has left, and keeps it against a try.
abbrev handed_over : Run step 2 initial
unfolding run step
handed_over = run step 2 initial (
    (0, call_lock)
    ∷ (1, call_try_lock_until true)
    ∷ (0, call_unlock)
    ∷ (1, call_lock)
    ∷ (0, call_try_lock true)
    ∷ [])

locked_iff_held_example :
    total is_holding 2 handed_over.last.pc ≡ (if handed_over.last.mem.locked then 1 else 0)
unfolding run step
locked_iff_held_example = locked_iff_held 2 handed_over.reach
