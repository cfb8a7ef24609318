-- ===== src/Tests/Spinlock.antt =====
-- `spinlock_mutex` (sync/mutex_extra.hpp) at a concrete schedule.
use synchronization_library.Prelude.{◌≡◌, [], ◌∷◌, if◌then◌else◌}
use synchronization_library.Threads.{total}
use synchronization_library.Threads.Schedule.{run, Run}
use synchronization_library.Spinlock.{step, initial, call_lock, call_try_lock, call_unlock, go}
use synchronization_library.Spinlock.Safety.{is_holding, flag_iff_held}

-- Thread 1 spins until thread 0 has left, and thread 0 then fails to come back.
abbrev spun : Run step 2 initial
unfolding run step
spun = run step 2 initial (
    (0, call_lock)
    ∷ (1, call_lock)
    ∷ (1, go)
    ∷ (0, call_unlock)
    ∷ (1, go)
    ∷ (0, call_try_lock)
    ∷ [])

flag_iff_held_example : total is_holding 2 spun.last.pc ≡ (if spun.last.mem.flag then 1 else 0)
unfolding run step
flag_iff_held_example = flag_iff_held 2 spun.reach
