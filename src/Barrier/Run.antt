-- ===== src/Barrier/Run.antt =====
-- stdlib/barrier.hpp, class `barrier`, under many threads. A method runs under `mtx_` up to its wait
-- and is one step, and so is a look at the test by a thread that wakes. A sleeper may wake at any time,
-- also when nobody notified it.
use synchronization_library.Prelude.{
  ℕ, ◌+◌, ◌-◌, ◌%◌, ◌^◌, Bool, Option, none, some, ◌==◌, if◌then◌else◌,
}
use synchronization_library.Threads.{System}

-- `count_` and `threads_`, of type `ptrdiff_t`. `rounds` is no field: it counts the calls of
-- `notify_all`, one at the end of each round.
pub record Barrier : Type 0 where
  pub count : ℕ
  pub threads : ℕ
  pub rounds : ℕ

pub data Pc : Type 0 where
  idle : Pc
  sleeping : (round : ℕ) → Pc  -- in `cv_.wait`, having arrived in this round
  dropped : Pc  -- has called `arrive_and_drop`, and never comes back

pub data Call : Type 0 where
  arrive_and_wait arrive_and_drop wake : Call

-- `--count_`, and `--threads_`.
abbrev pub minus_one : ℕ → ℕ
minus_one n = (n + 2 ^ 64 - 1) % 2 ^ 64

-- The test of the wait, by a thread that arrived in this round.
abbrev pub test : Barrier → ℕ → Barrier × Pc
test b round = if b.count == b.threads then (b, idle) else (b, sleeping round)

unfoldable pub arrive : Barrier → Barrier × Pc
arrive b =
    if minus_one b.count == 0
    then (record b { count = b.threads; rounds = b.rounds + 1 }, idle)
    else test (record b { count = minus_one b.count }) b.rounds

unfoldable pub drop : Barrier → Barrier
drop b =
    if minus_one b.count == 0
    then record {
      count = minus_one b.threads;
      threads = minus_one b.threads;
      rounds = b.rounds + 1;
    }
    else record b { count = minus_one b.count; threads = minus_one b.threads }

-- What the destructor asserts.
unfoldable pub is_destructible : Barrier → Bool
is_destructible b = b.count == b.threads

-- One step of one thread.
unfoldable pub step : Call → Barrier → Pc → Option (Barrier × Pc)
unfolding arrive drop
step arrive_and_wait b idle = some (arrive b)
step arrive_and_drop b idle = some (drop b, dropped)
step wake b (sleeping round) = some (test b round)
step call b p = none

-- A barrier for `n` threads, all of which take part.
abbrev pub initial : ℕ → System Barrier Pc
initial n = record { mem = record { count = n; threads = n; rounds = 0 }; pc = λ _. idle }
