-- ===== src/SharedMutex/Run.antt =====
-- stdlib/shared_mutex.hpp under many threads: which thread stands where, and its steps.
use synchronization_library.Prelude.{ℕ, Bool, true, false, Option, none, some}
use synchronization_library.Threads.{System}
use synchronization_library.SharedMutex.Base
use synchronization_library.SharedMutex.Base.{Outcome}

-- Where a thread stands. A wait at `gate1_` has changed nothing, so it is `idle`.
pub data Pc : Type 0 where
  idle : Pc
  draining : Pc  -- in `lock`, has entered and waits at `gate2_`
  timed_draining : Pc  -- the same in `try_lock_until`
  writing : Pc  -- holds the mutex
  reading : Pc  -- holds it shared

pub data Call : Type 0 where
  lock try_lock unlock lock_shared try_lock_shared unlock_shared : Call
  try_lock_until try_lock_shared_until : (expired : Bool) → Call
  go : (expired : Bool) → Call  -- the next step of a call that has begun

-- A wait that is over puts the thread at `p`.
abbrev arrive : Pc → Option Outcome → Option (ℕ × Pc)
arrive p none = none
arrive p (some o) = some (o.state, p)

-- A try that succeeds puts the thread at `p`, and one that fails leaves it idle.
abbrev attempt : Pc → Bool × Outcome → ℕ × Pc
attempt p (true, o) = (o.state, p)
attempt p (false, o) = (o.state, idle)

abbrev attempt_timed : Pc → Option (Bool × Outcome) → Option (ℕ × Pc)
attempt_timed p none = none
attempt_timed p (some r) = some (attempt p r)

-- One step of one thread; the memory is `state_`. The mutex is unlocked by those that hold it.
unfoldable pub step : Call → ℕ → Pc → Option (ℕ × Pc)
unfolding Base.lock_enter Base.lock_drain Base.try_lock Base.unlock Base.lock_shared
    Base.try_lock_shared Base.unlock_shared Base.try_lock_until_enter Base.try_lock_until_drain
    Base.try_lock_shared_until
step lock state idle = arrive draining (Base.lock_enter state)
step try_lock state idle = some (attempt writing (Base.try_lock state))
step lock_shared state idle = arrive reading (Base.lock_shared state)
step try_lock_shared state idle = some (attempt reading (Base.try_lock_shared state))
step (try_lock_until expired) state idle =
    attempt_timed timed_draining (Base.try_lock_until_enter expired state)
step (try_lock_shared_until expired) state idle =
    attempt_timed reading (Base.try_lock_shared_until expired state)
step (go expired) state draining = arrive writing (Base.lock_drain state)
step (go expired) state timed_draining =
    attempt_timed writing (Base.try_lock_until_drain expired state)
step unlock state writing = some ((Base.unlock state).state, idle)
step unlock_shared state reading = some ((Base.unlock_shared state).state, idle)
step call state p = none

abbrev pub initial : System ℕ Pc
initial = record { mem = 0; pc = λ _. idle }
