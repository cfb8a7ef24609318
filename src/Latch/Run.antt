-- ===== src/Latch/Run.antt =====
-- stdlib/latch.hpp, class `latch`, under many threads. `count_` changes by atomic operations outside
-- `mtx_`; the test and the wait of `cv_` under it are one step. A sleeper may wake at any time, also
-- when nobody notified it, as a condition variable allows.
use synchronization_library.Prelude.{
  ℕ, ◌+◌, ◌-◌, ◌%◌, ◌^◌, Bool, Option, none, some, ◌==◌, if◌then◌else◌,
}
use synchronization_library.Threads.{System}

-- `count_`, a `ptrdiff_t` of 64 bits. `arrived` and `notified` are no fields: they count the
-- decrements and the calls of `notify_all` so far.
pub record Latch : Type 0 where
  pub count : ℕ
  pub arrived : ℕ
  pub notified : ℕ

pub data Pc : Type 0 where
  idle : Pc
  checking : Pc  -- about to take `mtx_` and test
  sleeping : Pc  -- in `cv_.wait`
  done : Pc  -- has returned from a wait

pub data Call : Type 0 where
  count_down_and_wait : Call
  count_down : ℕ → Call
  wait : Call
  go : Call  -- the next step of a call that has begun

unfoldable pub is_ready : Latch → Bool
is_ready l = l.count == 0

-- `count_.fetch_sub(1)`
unfoldable pub decrement : Latch → Latch
decrement l = record l { count = (l.count + 2 ^ 64 - 1) % 2 ^ 64; arrived = l.arrived + 1 }

unfoldable pub notify : Latch → Latch
notify l = record l { notified = l.notified + 1 }

-- `cv_.wait` with its test.
unfoldable pub test : Latch → Latch × Pc
unfolding is_ready
test l = if is_ready l then (l, done) else (l, sleeping)

-- One step of one thread. `count_down` takes 1 off, whatever its argument.
unfoldable pub step : Call → Latch → Pc → Option (Latch × Pc)
unfolding decrement notify test is_ready
step count_down_and_wait l idle =
    if l.count == 0 then some (notify (decrement l), done) else some (decrement l, checking)
step (count_down n) l idle = some (decrement l, idle)
step wait l idle = if is_ready l then some (l, done) else some (l, checking)
step go l checking = some (test l)
step go l sleeping = some (test l)
step call l p = none

abbrev pub initial : ℕ → System Latch Pc
initial n = record { mem = record { count = n; arrived = 0; notified = 0 }; pc = λ _. idle }
