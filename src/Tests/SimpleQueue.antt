-- ===== src/Tests/SimpleQueue.antt =====
-- `simple_blocking_queue` (sync/queue.hpp) at concrete calls.
use synchronization_library.Prelude.{ℕ, ◌≡◌, refl, false, some, none, List, [], ◌∷◌, ◌++◌}
use synchronization_library.Queue.Simple.{
  Call, push, try_push, pop, done, try_pop, take, initial, step, run,
}
use synchronization_library.Queue.Simple.Ended.{ended_answers}

abbrev calls : List (Call ℕ)
calls = pop ∷ push 4 ∷ push 5 ∷ try_push 6 false ∷ done ∷ []

abbrev later : List (Call ℕ)
later = try_pop false ∷ pop ∷ []

one_left : (run later (run calls initial)).queue ≡ 5 ∷ []
unfolding run
one_left = refl

-- The first pop has to wait.
waits : step pop (initial {A = ℕ}) ≡ none
unfolding step
waits = refl

ended_answers_example :
    (step pop (run later (run calls initial))
      ≡ some (take (run later (run calls initial)).queue (run later (run calls initial))))
    × ((run later (run calls initial)).pushed
        ≡ (run later (run calls initial)).popped ++ (run later (run calls initial)).queue)
unfolding run
ended_answers_example = ended_answers calls later refl
