-- ===== src/Tests/FastSemaphore.antt =====
-- `fast_semaphore` (sync/semaphore.hpp) at concrete schedules.
use synchronization_library.Prelude.{◌+◌, ◌≤◌, ◌≡◌, refl, arith, [], ◌∷◌}
use synchronization_library.Threads.{total}
use synchronization_library.Threads.Schedule.{run, Run}
use synchronization_library.FastSemaphore.Run.{step, initial, post, wait, go}
use synchronization_library.FastSemaphore.Safety.{passes_within_posts, no_lost_post}

-- Of three threads that wait at a semaphore of 1, the first passes at once, the second is let through
-- by a post of the first, and the third waits.
abbrev one_left : Run step 3 (initial 1)
unfolding run step
one_left =
    run step 3 (initial 1) ((0, wait) ∷ (1, wait) ∷ (2, wait) ∷ (0, post) ∷ (0, go) ∷ (1, go) ∷ [])

passes_within_posts_example : one_left.last.mem.passes ≤ 1 + one_left.last.mem.posts
unfolding run step
passes_within_posts_example = passes_within_posts 3 1 (omega arith) one_left.reach (omega arith)

no_lost_post_example : one_left.last.mem.passes ≡ 1 + one_left.last.mem.posts
unfolding run step total
no_lost_post_example =
    no_lost_post 3 1 (omega arith) one_left.reach (omega arith) 2 (omega arith) refl refl refl
