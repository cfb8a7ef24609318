-- ===== src/Event/Manual.antt =====
-- sync/event.hpp, class `manual_event`. Each method runs under `mutex_` and is one step; a wait on
-- `cv_` is `none` until `signaled_` is set, and a timed one may find its time expired.
use synchronization_library.Prelude.{Bool, true, false, Option, none, some, if◌then◌else◌}
use synchronization_library.Event.{Event}

unfoldable pub signal : Event → Event
signal e = record { signaled = true }

unfoldable pub wait : Event → Option Event
wait e = if e.signaled then some e else none

-- `wait_for` and `wait_until` answer what the predicate gives last.
unfoldable pub wait_until : Bool → Event → Option (Bool × Event)
wait_until expired e =
    if e.signaled then some (true, e) else (if expired then some (false, e) else none)

unfoldable pub reset : Event → Event
reset e = record { signaled = false }
