-- ===== src/Tests/SharedMutex.antt =====
-- `shared_mutex_base` (stdlib/shared_mutex.hpp) at concrete schedules and words.
use synchronization_library.Prelude.{ℕ, ◌+◌, ◌^◌, ◌≡◌, ◌≢◌, refl, arith, true, false, [], ◌∷◌}
use synchronization_library.Threads.Schedule.{run, Run}
use synchronization_library.SharedMutex.Base
use synchronization_library.SharedMutex.Run.{
  step, initial, lock, go, lock_shared, unlock_shared, try_lock_until, writing, reading,
}
use synchronization_library.SharedMutex.Exclusion.{writer_excludes}
use synchronization_library.SharedMutex.Wakeups.{Notifies, by_reader, Release-Notifies}

-- Thread 0 reads, and thread 1 has entered and waits for it.
abbrev reader_and_drainer : Run step 2 initial
unfolding run step
reader_and_drainer = run step 2 initial ((0, lock_shared) ∷ (1, lock) ∷ (1, go true) ∷ [])

-- The reader leaves, the writer goes on, and thread 0 cannot come back.
abbrev one_writer : Run step 2 initial
unfolding run step
one_writer =
    run step 2 initial
      ((0, lock_shared) ∷ (1, lock) ∷ (0, unlock_shared) ∷ (1, go false) ∷ (0, lock_shared) ∷ [])

writer_excludes_example :
    (one_writer.last.pc 0 ≢ reading) × (one_writer.last.pc 0 ≡ writing → ◌≡◌ {A = ℕ} 1 0)
unfolding run step
writer_excludes_example = writer_excludes 2 one_writer.reach 1 0 (omega arith) (omega arith) refl

-- A writer that has entered, and one reader, who is the last to leave.
Release-Notifies_example : Notifies (2 ^ 31 + 1) (Base.unlock_shared (2 ^ 31 + 1))
Release-Notifies_example = Release-Notifies (2 ^ 31 + 1) (omega arith) (by_reader (omega arith))

timed_writer_gives_up :
    (run step 2 initial ((0, lock_shared) ∷ (1, try_lock_until false) ∷ (1, go true) ∷ [])).last.mem
    ≡ 1
unfolding run step
timed_writer_gives_up = refl
