-- ===== src/Tests/SimplePool.antt =====
-- `simple_thread_pool` (sync/thread_pool.hpp) at a concrete schedule.
use synchronization_library.Prelude.{ℕ, ◌≡◌, ◌≢◌, refl, [], ◌∷◌, ◌++◌}
use synchronization_library.Queue.Simple
use synchronization_library.Threads.Schedule.{run, Run}
use synchronization_library.ThreadPool.Simple.{
  step, initial, post_work, go, looking, running, ended, worker_stays,
}

-- Threads 0 and 1 are workers; thread 2 posts. The third `pop` waits.
abbrev posted : Run (step {A = ℕ}) 3 (initial 2)
unfolding run step Simple.step
posted = run step 3 (initial 2) (
    (1, go)
    ∷ (2, post_work 7)
    ∷ (2, post_work 8)
    ∷ (2, post_work 9)
    ∷ (1, go)
    ∷ (0, go)
    ∷ (1, go)
    ∷ [])

runs_in_order :
    (posted.last.mem.taken ≡ 7 ∷ 8 ∷ [])
    × (posted.last.pc 0 ≡ running 8)
    × (posted.last.pc 1 ≡ looking)
unfolding run step Simple.step
runs_in_order = (refl, refl, refl)

worker_stays_example :
    (posted.last.mem.queue.pushed ≡ posted.last.mem.taken ++ posted.last.mem.queue.queue)
    × ((i : ℕ) → posted.last.pc i ≢ ended)
unfolding run step Simple.step
worker_stays_example = worker_stays 3 2 posted.reach
