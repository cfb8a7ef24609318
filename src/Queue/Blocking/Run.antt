-- ===== src/Queue/Blocking/Run.antt =====
-- sync/queue.hpp, class `blocking_queue`, under many threads: a method is a wait on one semaphore,
-- the critical section under `mutex_`, and a post on the other, and threads interleave between them.
use mathlib.Core.Option
use synchronization_library.Prelude.{ℕ, true, false, Option, none, some, List, [], ◌∷◌, ◌++◌}
use synchronization_library.Semaphore
use synchronization_library.Semaphore.{Semaphore}
use synchronization_library.Threads.{System}
use synchronization_library.Queue.Blocking.Ring
use synchronization_library.Queue.Blocking.Ring.{Ring}

-- The queue. `pushed` and `popped` are no fields of the class: they record the objects that went
-- in and came out, oldest first, in the order of the critical sections.
pub record BlockingQueue (A : Type 0) : Type 0 where
  pub ring : Ring A
  pub open_slots : Semaphore
  pub full_slots : Semaphore
  pub pushed : List A
  pub popped : List A

-- Where a thread stands in a method.
pub data Pc (A : Type 0) : Type 0 where
  idle : Pc A
  pushing : A → Pc A  -- has waited on `open_slots_`
  push_done : Pc A  -- before `full_slots_.post()`
  popping : Pc A  -- has waited on `full_slots_`
  pop_done : Pc A  -- before `open_slots_.post()`
  fault : Pc A  -- has read memory with no object in it

-- What an idle thread calls; `go` is the next step of a method that has begun.
pub data Call (A : Type 0) : Type 0 where
  push : A → Call A
  try_push : A → Call A
  pop : Call A
  try_pop : Call A
  go : Call A

module _ {A : Type 0} where
  unfoldable pub make : ℕ → BlockingQueue A
  unfolding Ring.make Semaphore.make
  make size = record {
    ring = Ring.make size;
    open_slots = Semaphore.make size;
    full_slots = Semaphore.make 0;
    pushed = [];
    popped = [];
  }

  -- The start of a method. `wait_for` at zero seconds has always expired.
  unfoldable pub begin : Call A → BlockingQueue A → Option (BlockingQueue A × Pc A)
  unfolding Semaphore.wait Semaphore.wait_for
  begin (push x) q =
      Option.map (λ s. (record q { open_slots = s }, pushing x)) (Semaphore.wait q.open_slots)
  begin (try_push x) q = elim (Semaphore.wait_for true q.open_slots) [
    | some (true, s) ↦ some (record q { open_slots = s }, pushing x)
    | some (false, s) ↦ some (record q { open_slots = s }, idle)
    | none ↦ none
  ]
  begin pop q =
      Option.map (λ s. (record q { full_slots = s }, popping)) (Semaphore.wait q.full_slots)
  begin try_pop q = elim (Semaphore.wait_for true q.full_slots) [
    | some (true, s) ↦ some (record q { full_slots = s }, popping)
    | some (false, s) ↦ some (record q { full_slots = s }, idle)
    | none ↦ none
  ]
  begin go q = none

  -- The critical sections and the posts.
  unfoldable pub proceed : BlockingQueue A → Pc A → Option (BlockingQueue A × Pc A)
  unfolding Semaphore.post
  proceed q idle = none
  proceed q (pushing x) =
      some (record q { ring = Ring.push_slot q.ring x; pushed = q.pushed ++ (x ∷ []) }, push_done)
  proceed q push_done = some (record q { full_slots = Semaphore.post q.full_slots }, idle)
  proceed q popping = elim (Ring.pop_slot q.ring) [
    | some (x, r) ↦ some (record q { ring = r; popped = q.popped ++ (x ∷ []) }, pop_done)
    | none ↦ some (q, fault)
  ]
  proceed q pop_done = some (record q { open_slots = Semaphore.post q.open_slots }, idle)
  proceed q fault = none

  -- One step of one thread.
  unfoldable pub step : Call A → BlockingQueue A → Pc A → Option (BlockingQueue A × Pc A)
  unfolding begin proceed
  step go q p = proceed q p
  step call q idle = begin call q
  step call q p = none

  -- Every thread is outside the queue.
  abbrev pub initial : ℕ → System (BlockingQueue A) (Pc A)
  initial size = record { mem = make size; pc = λ _. idle }
