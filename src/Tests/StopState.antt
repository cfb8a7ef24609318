-- ===== src/Tests/StopState.antt =====
-- The word of `_stop_state` (stdlib/stop_token.hpp) at concrete values.
use synchronization_library.Prelude.{◌≡◌, refl, arith, true, false}
use synchronization_library.StopState.Fields.{Fields, pack, unlock_and_give_token, run, run_of_pack}

-- The callback list is being changed, by the last token.
abbrev busy : Fields
busy = record { requested = false; locked = true; tokens = 1; sources = 0 }

-- The last reference of all, a token.
run_of_pack_example : run unlock_and_give_token (pack busy) ≡ (0, true)
run_of_pack_example =
    run_of_pack unlock_and_give_token busy (omega arith, omega arith) (refl, omega arith)
