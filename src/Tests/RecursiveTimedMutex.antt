-- ===== src/Tests/RecursiveTimedMutex.antt =====
-- `recursive_timed_mutex` (stdlib/mutex.hpp) at a concrete schedule.
use synchronization_library.Prelude.{◌≡◌, refl, arith, true, false, [], ◌∷◌}
use synchronization_library.Threads.Schedule.{run, Run}
use synchronization_library.RecursiveTimedMutex.{
  step, initial, max_count, acquired, limit_reached, lock, call_lock, call_unlock, call_try_lock,
  call_try_lock_until,
}
use synchronization_library.RecursiveTimedMutex.Safety.{one_owner}

-- Thread 1 takes the mutex after thread 0 has left it, then twice more, and leaves once; thread 0 gives
-- up in between.
abbrev twice_held : Run (step true) 2 initial
unfolding run step
twice_held = run (step true) 2 initial (
    (0, call_lock)
    ∷ (0, call_unlock)
    ∷ (1, call_lock)
    ∷ (1, call_try_lock true)
    ∷ (0, call_try_lock_until true)
    ∷ (1, call_lock)
    ∷ (1, call_unlock)
    ∷ [])

one_owner_example :
    (twice_held.last.mem.id ≡ 2)
    × (twice_held.last.mem.count ≡ 2)
    × ((twice_held.last.pc 0).depth ≡ 0)
unfolding run step
one_owner_example =
    one_owner 2 twice_held.reach 1 0 (omega arith) (omega arith) (omega arith) (omega arith)

-- At the limit the assertion fails; without it the mutex looks free.
at_the_limit :
    (lock true 1 (record { count = max_count; id = 1 }) ≡ limit_reached)
    × (lock false 1 (record { count = max_count; id = 1 })
        ≡ acquired (record { count = 0; id = 1 }))
unfolding lock
at_the_limit = (refl, refl)
