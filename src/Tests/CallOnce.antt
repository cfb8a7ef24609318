-- ===== src/Tests/CallOnce.antt =====
-- `call_once` (stdlib/mutex.hpp) at a concrete schedule.
use synchronization_library.Prelude.{◌+◌, ◌≤◌, ◌≡◌, refl, arith, [], ◌∷◌}
use synchronization_library.Threads.{total}
use synchronization_library.Threads.Schedule.{run, Run}
use synchronization_library.CallOnce.{
  step, initial, call_once, enter, throw, again, entering, returned, begun, is_entering,
  called_once,
}

-- Thread 1 comes back before thread 0 has called the callable.
abbrev early : Run step 2 initial
unfolding run step
early = run step 2 initial ((0, call_once) ∷ (1, call_once) ∷ [])

comes_back_early :
    (early.last.pc 0 ≡ entering) × (early.last.pc 1 ≡ returned) × (early.last.mem.calls ≡ 0)
unfolding run step
comes_back_early = (refl, refl, refl)

-- The callable throws, and nobody calls it again.
abbrev thrown_once : Run step 2 initial
unfolding run step
thrown_once =
    run step 2 initial
      ((0, call_once) ∷ (0, enter) ∷ (0, throw) ∷ (0, again) ∷ (0, call_once) ∷ (1, call_once) ∷ [])

called_once_example :
    (thrown_once.last.mem.calls + total is_entering 2 thrown_once.last.pc ≤ 1)
    × (begun (thrown_once.last.pc 1)
        ≤ thrown_once.last.mem.calls + total is_entering 2 thrown_once.last.pc)
unfolding run step
called_once_example = called_once 2 thrown_once.reach 1 (omega arith)
