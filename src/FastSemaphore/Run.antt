-- ===== src/FastSemaphore/Run.antt =====
-- sync/semaphore.hpp, class `fast_semaphore`, one atomic access of one thread at a time.
use synchronization_library.Prelude.{
  ℕ, ◌+◌, ◌-◌, ◌%◌, ◌^◌, Bool, Option, none, some, leb, ◌==◌, ◌||◌, if◌then◌else◌,
}
use synchronization_library.Semaphore
use synchronization_library.Semaphore.{Semaphore}
use synchronization_library.Threads.{System}

-- `semaphore_`, and `count_`, a long in two's complement. `posts` and `passes` are no fields: they
-- count the calls of `post`, and the calls of `wait` that are over or need wait no more.
pub record FastSemaphore : Type 0 where
  pub count : ℕ
  pub semaphore : Semaphore
  pub posts : ℕ
  pub passes : ℕ

pub data Pc : Type 0 where
  idle : Pc
  posting : Pc  -- before `semaphore_.post()`
  waiting : Pc  -- in `semaphore_.wait()`

pub data Call : Type 0 where
  post wait : Call
  go : Call  -- the next step of a call that has begun

abbrev pub is_negative : ℕ → Bool
is_negative count = leb (2 ^ 63) count

-- `count_.fetch_add(1)` and its test.
unfoldable pub post_first : FastSemaphore → FastSemaphore × Pc
post_first f =
    let added = record f { count = (f.count + 1) % 2 ^ 64; posts = f.posts + 1 } in
    if is_negative f.count then (added, posting) else (added, idle)

-- `count_.fetch_sub(1)` and its test.
unfoldable pub wait_first : FastSemaphore → FastSemaphore × Pc
wait_first f =
    let count = (f.count + (2 ^ 64 - 1)) % 2 ^ 64 in
    if is_negative f.count || f.count == 0
    then (record f { count = count }, waiting)
    else (record f { count = count; passes = f.passes + 1 }, idle)

unfoldable pub wait_second : FastSemaphore → Option (FastSemaphore × Pc)
unfolding Semaphore.wait
wait_second f = elim (Semaphore.wait f.semaphore) [
  | none ↦ none
  | some s ↦ some (record f { semaphore = s; passes = f.passes + 1 }, idle)
]

-- One step of one thread.
unfoldable pub step : Call → FastSemaphore → Pc → Option (FastSemaphore × Pc)
unfolding post_first wait_first wait_second Semaphore.post
step post f idle = some (post_first f)
step wait f idle = some (wait_first f)
step go f posting = some (record f { semaphore = Semaphore.post f.semaphore }, idle)
step go f waiting = wait_second f
step call f p = none

-- The constructor, for a count that is not negative.
abbrev pub initial : ℕ → System FastSemaphore Pc
initial count = record {
  mem = record { count = count; semaphore = record { count = 0 }; posts = 0; passes = 0 };
  pc = λ _. idle;
}
