-- ===== src/Spinlock.antt =====
-- sync/mutex_extra.hpp, class `spinlock_mutex`, alone and under many threads. Each turn of the spin in
-- `lock` is a step of its own.
pub mod Safety
use synchronization_library.Prelude.{ℕ, Bool, true, false, Option, none, some}
use synchronization_library.Threads.{System}

-- `flag_`
pub record SpinlockMutex : Type 0 where
  pub flag : Bool

-- `test_and_set`: the old value, and the flag set.
unfoldable pub test_and_set : SpinlockMutex → Bool × SpinlockMutex
test_and_set m = (m.flag, record { flag = true })

unfoldable pub unlock : SpinlockMutex → SpinlockMutex
unlock m = record { flag = false }

pub data Pc : Type 0 where
  idle : Pc
  spinning : Pc  -- in the loop of `lock`, after a test that failed
  holding : Pc

pub data Call : Type 0 where
  call_lock call_try_lock call_unlock : Call
  go : Call  -- the next turn of a spin

-- Where the thread is when the old value was true, and where it is when it was false.
abbrev land : Pc → Bool × SpinlockMutex → SpinlockMutex × Pc
land p (true, m) = (m, p)
land p (false, m) = (m, holding)

-- One step of one thread. The mutex is unlocked by the thread that holds it.
unfoldable pub step : Call → SpinlockMutex → Pc → Option (SpinlockMutex × Pc)
unfolding test_and_set unlock
step call_lock m idle = some (land spinning (test_and_set m))
step call_try_lock m idle = some (land idle (test_and_set m))
step call_unlock m holding = some (unlock m, idle)
step go m spinning = some (land spinning (test_and_set m))
step call m p = none

abbrev pub initial : System SpinlockMutex Pc
initial = record { mem = record { flag = false }; pc = λ _. idle }
