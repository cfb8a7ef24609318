-- ===== src/SharedMutex/Wakeups.antt =====
-- stdlib/shared_mutex.hpp: a change that lets a waiter pass notifies the gate where it waits.
use synchronization_library.Prelude.{
  ℕ, ◌+◌, ◌⊎◌, ◌^◌, ◌<◌, ◌≡◌, ◌≢◌, arith, Bool, true, false, ◌==◌, ◌||◌, some,
}
use synchronization_library.SharedMutex.Base.{
  silent, one, all, Outcome, has_writer, readers, n_readers, unlock, unlock_shared,
  try_lock_until_drain,
}

-- The test on which a reader waits at `gate1_`. A writer waits there on `has_writer`.
abbrev pub reader_waits : ℕ → Bool
reader_waits state = has_writer state || readers state == n_readers

-- What `gate1_` gets lets all pass who now can. Where a writer has left, readers and writers wait there,
-- and all are notified; one notification is enough where no writer was in and one reader fits.
abbrev pub IsEnough : (state : ℕ) → Outcome → Type 0
IsEnough state o =
    (o.gate1 ≡ all)
    ⊎ ((o.gate1 ≡ one) × (has_writer state ≡ false) × (readers o.state + 1 ≡ n_readers))

-- A step from `state` notifies each gate at which it turns a test of the waiters to false. At `gate2_`
-- there is at most the one writer that has entered.
pub record Notifies (state : ℕ) (o : Outcome) : Type 0 where
  pub writers : has_writer state ≡ true → has_writer o.state ≡ false → o.gate1 ≡ all
  pub readers_too : reader_waits state ≡ true → reader_waits o.state ≡ false → IsEnough state o
  pub drainer :
      has_writer o.state ≡ true → readers state ≢ 0 → readers o.state ≡ 0 → o.gate2 ≢ silent

-- The calls that give something up: `unlock` by the writer, `unlock_shared` by a reader, and a
-- `try_lock_until` whose time is over behind readers.
pub data Release (state : ℕ) : Outcome → Type 0 where
  by_writer : Release state (unlock state)
  by_reader : readers state ≢ 0 → Release state (unlock_shared state)
  by_time_out : {o : Outcome} → try_lock_until_drain true state ≡ some (false, o) → Release state o

-- Whichever call gives something up (`unlock` by the writer, `unlock_shared` by a reader, a
-- `try_lock_until` whose time is over behind readers), on any word of 32 bits: where the writer's bit is
-- cleared, all who wait at `gate1_` are notified; where a reader waiting there can pass, all are, or one
-- if no writer was in and just one reader fits; and the writer at `gate2_` is, when the last reader left.
pub Release-Notifies :
    (state : ℕ) {o : Outcome} → state < 2 ^ 32 → Release state o → Notifies state o
unfolding unlock unlock_shared try_lock_until_drain
Release-Notifies state small by_writer = record {
  writers = λ a b. ground arith;
  readers_too = λ a b. ground arith;
  drainer = λ a b. ground arith;
}
Release-Notifies state small (by_reader some_reader) = record {
  writers = λ a b. ground arith;
  readers_too = λ a b. ground arith;
  drainer = λ a b c. ground arith;
}
Release-Notifies state small (by_time_out gave_up) = record {
  writers = λ a b. ground arith;
  readers_too = λ a b. ground arith;
  drainer = λ a b c. ground arith;
}
