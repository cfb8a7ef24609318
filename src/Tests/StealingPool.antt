-- ===== src/Tests/StealingPool.antt =====
-- The threads of `work_stealing_thread_pool` (sync/thread_pool.hpp) at concrete schedules.
use synchronization_library.Prelude.{
  ℕ, zero, suc, ◌+◌, ◌<◌, ◌≡◌, refl, arith, Bool, true, false, none, [], ◌∷◌, ◌==◌,
}
use synchronization_library.Queue.Simple
use synchronization_library.Threads.{total}
use synchronization_library.Threads.Schedule.{run, Run}
use synchronization_library.ThreadPool.Stealing.{
  step, initial, post_work, go, outside, placing, looking, running,
}
use synchronization_library.ThreadPool.Counts.{count, waiting, in_hand, is_home}
use synchronization_library.ThreadPool.Tasks.{tasks_kept}
use synchronization_library.ThreadPool.Served.{all_taken}

abbrev is_seven : ℕ → Bool
is_seven task = task == 7

-- Threads 0 and 1 are workers, 2 and 3 post. The queue of worker 0 is busy when task 7 is posted, so
-- that it goes to the other; worker 0 takes it from there.
abbrev stolen : Run (step {A = ℕ}) 4 (initial 2)
unfolding run step Simple.step
stolen = run step 4 (initial 2) (
    (2, post_work 7)
    ∷ (2, go false)
    ∷ (2, go true)
    ∷ (0, go true)
    ∷ (0, go true)
    ∷ (3, post_work 8)
    ∷ [])

runs_stolen :
    (stolen.last.pc 0 ≡ running 0 7)
    × (stolen.last.pc 1 ≡ looking 1 0)
    × (stolen.last.pc 2 ≡ outside)
    × (stolen.last.pc 3 ≡ placing 8 1 0)
unfolding run step Simple.step
runs_stolen = (refl, refl, refl, refl)

tasks_kept_example :
    (count is_seven stolen.last.mem.posted
      ≡ count is_seven stolen.last.mem.taken
        + total (waiting is_seven) 2 stolen.last.mem.queues
        + total (in_hand is_seven) 4 stolen.last.pc)
    × ((j : ℕ) → is_home 2 j (stolen.last.pc j) ≡ true)
unfolding run step Simple.step
tasks_kept_example = tasks_kept is_seven 4 2 (omega arith) stolen.reach

-- Both workers come to wait, and task 7 has been run.
abbrev asleep : Run (step {A = ℕ}) 3 (initial 2)
unfolding run step Simple.step
asleep = run step 3 (initial 2) (
    (2, post_work 7)
    ∷ (2, go true)
    ∷ (0, go true)
    ∷ (0, go true)
    ∷ (0, go true)
    ∷ (0, go true)
    ∷ (1, go true)
    ∷ (1, go true)
    ∷ [])

all_taken_example :
    count is_seven asleep.last.mem.posted
    ≡ count is_seven asleep.last.mem.taken + total (in_hand is_seven) 3 asleep.last.pc
unfolding run step Simple.step
all_taken_example = all_taken is_seven 3 2 (omega arith) asleep.reach both_wait
  where
    both_wait :
        (w : ℕ)
        → w < 2
        → (locked : Bool) × (step (go locked) asleep.last.mem (asleep.last.pc w) ≡ none)
    both_wait zero lt = (true, refl)
    both_wait (suc zero) lt = (true, refl)
    both_wait (suc (suc w)) lt = absurd (omega arith)
