-- ===== src/Tests/ThreadPool.antt =====
-- `work_stealing_thread_pool` (sync/thread_pool.hpp) at concrete answers of its queues.
use synchronization_library.Prelude.{ℕ, ◌≡◌, refl, arith, Bool, false, none, some, [], ◌∷◌, ◌==◌}
use synchronization_library.ThreadPool.Dispatch.{
  Pool, refused, accepted, post_work, next_task, waited,
}
use synchronization_library.ThreadPool.Coverage.{refusals, refusals-even}

abbrev three : Pool
three = record { index = 7; count = 3 }

-- The third try succeeds.
abbrev at_third : ℕ → Bool
at_third n = n == 2

placed : (post_work at_third three).1 ≡ refused 1 ∷ refused 2 ∷ accepted 0 ∷ []
unfolding post_work
placed = refl

-- Every try fails, and the worker's own queue has been ended.
own_queue :
    next_task {A = ℕ} three 1 (λ n. none) none
    ≡ (refused 1 ∷ refused 2 ∷ refused 0 ∷ waited 1 ∷ [], none)
unfolding next_task
own_queue = refl

refusals-even_example :
    (refusals 0 (post_work (λ n. false) three).1 ≡ 2)
    × (refusals 0 (next_task {A = ℕ} three 1 (λ n. none) (some 5)).0 ≡ 1)
refusals-even_example =
    refusals-even three 1 0 (λ n. false) (λ n. none) (some 5) (omega arith) (omega arith)
      (omega arith) (λ n. refl) (λ n. refl)
