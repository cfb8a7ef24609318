-- ===== src/Tests/FastMutex.antt =====
-- `fast_mutex` (sync/mutex_extra.hpp) at concrete schedules.
use synchronization_library.Prelude.{ℕ, ◌<◌, ◌≡◌, refl, arith, true, ◌⊎◌, [], ◌∷◌}
use synchronization_library.Threads.{total}
use synchronization_library.Threads.Schedule.{run, Run}
use synchronization_library.FastMutex.Run.{step, initial, lock, unlock, go, holding}
use synchronization_library.FastMutex.Safety.{
  mutual_exclusion, no_lost_wakeup, is_active, is_holding,
}

-- Thread 0 holds the mutex, and thread 1 sleeps.
abbrev one_sleeper : Run step 2 initial
unfolding run step
one_sleeper = run step 2 initial ((0, lock) ∷ (1, lock) ∷ (1, go) ∷ [])

mutual_exclusion_example : ◌≡◌ {A = ℕ} 0 0
unfolding run step
mutual_exclusion_example =
    mutual_exclusion 2 one_sleeper.reach 0 0 (omega arith) (omega arith) refl refl

no_lost_wakeup_example :
    (one_sleeper.last.mem.event.signaled ≡ true)
    ⊎ (0 < total is_active 2 one_sleeper.last.pc)
    ⊎ ((one_sleeper.last.mem.state ≡ 2) × (total is_holding 2 one_sleeper.last.pc ≡ 1))
unfolding run step
no_lost_wakeup_example = no_lost_wakeup 2 one_sleeper.reach 1 (omega arith) refl

-- The sleeper is woken by the unlock and takes the mutex.
handed_over :
    (run step 2 initial
        ((0, lock) ∷ (1, lock) ∷ (1, go) ∷ (0, unlock) ∷ (0, go) ∷ (1, go) ∷ (1, go) ∷ [])).last.pc
      1
    ≡ holding
unfolding run step
handed_over = refl
