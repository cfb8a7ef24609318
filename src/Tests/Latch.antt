-- ===== src/Tests/Latch.antt =====
-- `latch` (stdlib/latch.hpp) at concrete schedules.
use synchronization_library.Prelude.{◌-◌, ◌≤◌, ◌≡◌, refl, arith, [], ◌∷◌}
use synchronization_library.Threads.Schedule.{run, Run}
use synchronization_library.Latch.Run.{
  step, initial, count_down_and_wait, count_down, wait, go, sleeping,
}
use synchronization_library.Latch.Safety.{no_early_return, never_notified}

-- Two threads arrive, and the one that slept wakes by itself.
abbrev met : Run step 2 (initial 2)
unfolding run step
met = run step 2 (initial 2) ((0, count_down_and_wait) ∷ (0, go) ∷ (1, count_down 1) ∷ (0, go) ∷ [])

no_early_return_example : 2 ≤ met.last.mem.arrived
unfolding run step
no_early_return_example = no_early_return 2 2 (omega arith) met.reach 0 (omega arith) refl

-- Thread 0 sleeps, and thread 1 has made the last decrement.
abbrev forgotten : Run step 2 (initial 2)
unfolding run step
forgotten =
    run step 2 (initial 2) ((0, count_down_and_wait) ∷ (0, go) ∷ (1, count_down 1) ∷ (1, wait) ∷ [])

still_asleep : forgotten.last.pc 0 ≡ sleeping
unfolding run step
still_asleep = refl

never_notified_example :
    (forgotten.last.mem.notified ≡ 0) × (forgotten.last.mem.count ≡ 2 - forgotten.last.mem.arrived)
unfolding run step
never_notified_example = never_notified 2 2 (omega arith) forgotten.reach (omega arith)
