-- ===== src/Tests/Callbacks.antt =====
-- `_stop_state` and its callbacks (stdlib/stop_token.hpp) at a concrete schedule.
use synchronization_library.Prelude.{◌≤◌, ◌≡◌, refl, true, false, [], ◌∷◌}
use synchronization_library.Threads.Schedule.{run, Run}
use synchronization_library.StopState.Callbacks.Run.{
  step, initial, construct_callback, destroy, compare_ids, wait_finished, request_stop, go_on,
  waiting,
}
use synchronization_library.StopState.Callbacks.Invariant.{is_bound}
use synchronization_library.StopState.Callbacks.Lifetime.{touched_alive, served_once}

-- Three callbacks; object 1 is destroyed in another thread while its callback runs, and has to wait.
abbrev running : Run step 3 initial
unfolding run step
running = run step 3 initial (
    (0, construct_callback true)
    ∷ (1, construct_callback true)
    ∷ (2, construct_callback true)
    ∷ (2, destroy)
    ∷ (0, request_stop)
    ∷ (0, go_on)
    ∷ (1, destroy)
    ∷ (1, compare_ids false)
    ∷ (1, wait_finished)
    ∷ [])

still_waiting : running.last.mem.at 1 ≡ waiting
unfolding run step
still_waiting = refl

touched_alive_example :
    (is_bound (running.last.mem.at 1) ≡ true)
    × (running.last.mem.finished 1 ≡ false)
    × (running.last.mem.runs 1 ≤ 1)
unfolding run step
touched_alive_example = touched_alive 3 running.reach 1 refl

-- From there on: the wait ends, and callback 0 is the last.
abbrev over : Run step 3 initial
unfolding run step
over = run step 3 initial (
    (0, construct_callback true)
    ∷ (1, construct_callback true)
    ∷ (0, request_stop)
    ∷ (0, go_on)
    ∷ (0, go_on)
    ∷ (0, go_on)
    ∷ (0, go_on)
    ∷ (0, go_on)
    ∷ (0, go_on)
    ∷ (0, go_on)
    ∷ (0, go_on)
    ∷ [])

served_once_example : (over.last.mem.runs 0 ≡ 1) × (over.last.mem.finished 0 ≡ true)
unfolding run step
served_once_example = served_once 3 over.reach refl 0 refl
