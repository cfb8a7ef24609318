-- ===== src/Event/Auto.antt =====
-- sync/event.hpp, class `auto_event`, read as `manual_event` is.
use synchronization_library.Prelude.{Bool, true, false, Option, none, some, if◌then◌else◌}
use synchronization_library.Event.{Event}

unfoldable pub signal : Event → Event
signal e = record { signaled = true }

-- A wait that passes takes the signal.
unfoldable pub wait : Event → Option Event
wait e = if e.signaled then some (record { signaled = false }) else none

unfoldable pub wait_until : Bool → Event → Option (Bool × Event)
wait_until expired e =
    if e.signaled
    then some (true, record { signaled = false })
    else (if expired then some (false, e) else none)
