-- ===== src/Os/Calls.antt =====
-- stdlib/internal/sync_mutex.hpp, POSIX branch, and stdlib/internal/include/assert.hpp: what the functions
-- make of the code that the system gives. 0 stands for success.
use synchronization_library.Prelude.{ℕ, ◌||◌, Bool, not, Option, none, some, ◌==◌, if◌then◌else◌}

-- `SYNC_POSIX_ASSERT`, which does nothing where the assertions are off.
abbrev pub posix_assert : {P : Type 0} → (asserts : Bool) → (code : ℕ) → (next aborted : P) → P
posix_assert asserts code next aborted = if not asserts || code == 0 then next else aborted

module _ {L P : Type 0} where
  -- A lock; `none` waits.
  abbrev pub after_lock : (asserts : Bool) → Option (ℕ × L) → (next aborted : P) → Option (L × P)
  after_lock asserts none next aborted = none
  after_lock asserts (some (code, l)) next aborted =
      some (l, posix_assert asserts code next aborted)

  -- A try, and where it leaves a thread when it fails.
  abbrev pub after_trylock : ℕ × L → (next other : P) → Option (L × P)
  after_trylock (code, l) next other = some (l, if code == 0 then next else other)

  abbrev pub after_unlock : (asserts : Bool) → ℕ × L → (next aborted : P) → Option (L × P)
  after_unlock asserts (code, l) next aborted = some (l, posix_assert asserts code next aborted)

  -- A try in a method that has a type and no `return`: once the system has answered, the behaviour of the
  -- thread is undefined.
  abbrev pub after_lost_try : ℕ × L → (undefined : P) → Option (L × P)
  after_lost_try (code, l) undefined = some (l, undefined)
