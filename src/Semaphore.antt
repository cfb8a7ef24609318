-- ===== src/Semaphore.antt =====
-- sync/semaphore.hpp, class `semaphore`. Each method runs under `mutex_`, so what it does there is
-- one step; a call that waits on `cv_` is `none` until its test of `count_` passes.
use synchronization_library.Prelude.{
  ℕ, ◌+◌, ◌-◌, ◌%◌, ◌^◌, Bool, true, false, Option, none, some, ◌==◌, if◌then◌else◌,
}

-- `count_` is an unsigned long of 64 bits.
pub record Semaphore : Type 0 where
  pub count : ℕ

unfoldable pub make : ℕ → Semaphore
make count = record { count = count % 2 ^ 64 }

unfoldable pub post : Semaphore → Semaphore
post s = record { count = (s.count + 1) % 2 ^ 64 }

-- The overload that takes an unsigned int.
unfoldable pub post_many : Semaphore → ℕ → Semaphore
post_many s count = record { count = (s.count + count) % 2 ^ 64 }

unfoldable pub wait : Semaphore → Option Semaphore
wait s = if s.count == 0 then none else some (record { count = s.count - 1 })

-- `expired` says whether the time is over. The answer is what the predicate gives last.
unfoldable pub wait_for : Bool → Semaphore → Option (Bool × Semaphore)
wait_for expired s =
    if s.count == 0
    then (if expired then some (false, s) else none)
    else some (true, record { count = s.count - 1 })

-- `wait_until` has the same body over a point in time.
unfoldable pub wait_until : Bool → Semaphore → Option (Bool × Semaphore)
wait_until expired s =
    if s.count == 0
    then (if expired then some (false, s) else none)
    else some (true, record { count = s.count - 1 })
