-- ===== src/Tests/FastSharedMutex.antt =====
-- `fast_shared_mutex` (sync/mutex_extra.hpp) at concrete schedules.
use synchronization_library.Prelude.{◌+◌, ◌≡◌, ◌≢◌, refl, arith, true, false, [], ◌∷◌}
use synchronization_library.Threads.{total}
use synchronization_library.Threads.Schedule.{run, Run}
use synchronization_library.FastSharedMutex.Run.{
  step, initial, lock_shared, unlock_shared, lock, try_lock, go, reading, writing, idle,
}
use synchronization_library.FastSharedMutex.Invariant.{is_waking}
use synchronization_library.FastSharedMutex.Safety.{writer_alone, drainer_woken}

-- Thread 0 reads, thread 1 waits for it to leave, and thread 2 comes to read and waits for thread 1.
abbrev in_turn : Run step 3 initial
unfolding run step
in_turn = run step 3 initial (
    (0, lock_shared)
    ∷ (1, lock)
    ∷ (1, go)
    ∷ (1, go)
    ∷ (2, lock_shared)
    ∷ (0, unlock_shared)
    ∷ (0, go)
    ∷ (0, go)
    ∷ (1, go)
    ∷ (2, go)
    ∷ [])

writer_alone_example : (in_turn.last.pc 2 ≢ writing) × (in_turn.last.pc 2 ≢ reading)
unfolding run step
writer_alone_example =
    writer_alone 3 in_turn.reach (omega arith) 1 2 (omega arith) (omega arith) (omega arith) refl

-- The reader has left, and is about to wake the writer.
abbrev last_left : Run step 2 initial
unfolding run step
last_left =
    run step 2 initial
      ((0, lock_shared) ∷ (1, lock) ∷ (1, go) ∷ (1, go) ∷ (0, unlock_shared) ∷ (0, go) ∷ [])

drainer_woken_example : last_left.last.mem.wrsem.count + total is_waking 2 last_left.last.pc ≡ 1
unfolding run step total
drainer_woken_example = drainer_woken 2 last_left.reach (omega arith) 1 (omega arith) refl refl

-- `try_lock` on a free mutex fails, and nobody can lock it any more.
abbrev tried : Run step 2 initial
unfolding run step
tried = run step 2 initial ((0, try_lock false) ∷ (0, go) ∷ (0, go) ∷ (0, go) ∷ (1, lock) ∷ [])

nobody_holds_it :
    (tried.last.pc 0 ≡ idle) × (tried.last.pc 1 ≡ idle) × (tried.last.mem.wrmtx ≡ true)
unfolding run step
nobody_holds_it = (refl, refl, refl)
