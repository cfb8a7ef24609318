-- ===== src/Event.antt =====
-- sync/event.hpp: what `manual_event` and `auto_event` share.
pub mod Manual
pub mod Auto
use synchronization_library.Prelude.{Bool}

-- The field `signaled_` of either class.
pub record Event : Type 0 where
  pub signaled : Bool
