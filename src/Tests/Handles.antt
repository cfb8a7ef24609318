-- ===== src/Tests/Handles.antt =====
-- `stop_token` and `stop_source` objects (stdlib/stop_token.hpp) at a concrete program.
use synchronization_library.Prelude.{ℕ, ◌<◌, ◌≡◌, refl, arith, false, none, some, List, [], ◌∷◌}
use synchronization_library.Threads.{total}
use synchronization_library.StopState.Fields.{pack}
use synchronization_library.StopState.Handles.Use.{
  Objects, Use, make_source, get_token, copy_token, move_assign_token, swap_tokens, add_token,
  add_source, drop_token, destroy_source, perform_all, initial,
}
use synchronization_library.StopState.Handles.Counts.{points_to, counted}
use synchronization_library.StopState.Handles.Lifetime.{AreWithin, tokens_counted}

-- Two states; a token of the first is copied over one of the second, and the source of the second goes.
abbrev program : List Use
program =
    make_source 0
    ∷ make_source 1
    ∷ get_token 0 0
    ∷ get_token 1 1
    ∷ copy_token 2 0
    ∷ move_assign_token 1 2
    ∷ swap_tokens 0 2
    ∷ destroy_source 1
    ∷ []

-- What the program leaves.
abbrev left : Objects
unfolding perform_all add_token add_source drop_token
left = elim (perform_all program initial) [ none ↦ initial | some o ↦ o ]

ran : perform_all program initial ≡ some left
unfolding perform_all add_token add_source drop_token
ran = refl

-- Two tokens of state 0, in the objects 1 and 2, and a source too many of state 1.
words_left : (left.words 0 ≡ pack (counted 2 1)) × (left.words 1 ≡ pack (counted 0 2))
unfolding perform_all add_token add_source drop_token
words_left = (refl, refl)

tokens_counted_example :
    (sources : ℕ) × (0 < sources)
    × (left.deleted 0 ≡ false)
    × (left.words 0 ≡ pack (counted (total (points_to 0) 3 left.tokens) sources))
unfolding perform_all add_token add_source drop_token
tokens_counted_example =
    tokens_counted 3 program left (omega arith) within ran (omega arith) 0 (omega arith)
  where
    within : AreWithin 3 program
    within = (
      tt,
      (
        tt,
        (
          omega arith,
          (
            omega arith,
            (
              (omega arith, omega arith),
              ((omega arith, omega arith), ((omega arith, omega arith), (tt, tt))),
            ),
          ),
        ),
      ),
    )
