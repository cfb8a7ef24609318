-- ===== src/Queue/Simple.antt =====
-- sync/queue.hpp, class `simple_blocking_queue`. Each method is one critical section under `mutex_`, so
-- that threads interleave as calls in some order. `queue_` is a template parameter, used as a std::queue
-- is: `emplace` puts an object at the back, and `front` and `pop` are of the front.
pub mod Ended
use synchronization_library.Prelude.{
  ℕ, ◌%◌, ◌^◌, Bool, true, false, ◌||◌, not, Option, none, some, List, [], ◌∷◌, ◌++◌, length,
  if◌then◌else◌,
}

-- `pushed` and `popped` are no fields: they record the objects that went in and came out, oldest first.
pub record SimpleBlockingQueue (A : Type 0) : Type 0 where
  pub queue : List A
  pub is_done : Bool
  pub pushed : List A
  pub popped : List A

-- `locked` is whether `try_to_lock` got the mutex.
pub data Call (A : Type 0) : Type 0 where
  push : A → Call A
  try_push : A → (locked : Bool) → Call A
  pop done : Call A
  try_pop : (locked : Bool) → Call A

-- What a call answers.
pub data Answer (A : Type 0) : Type 0 where
  nothing : Answer A
  pushes : Bool → Answer A
  pops : Option A → Answer A

module _ {A : Type 0} where
  abbrev pub initial : SimpleBlockingQueue A
  initial = record { queue = []; is_done = false; pushed = []; popped = [] }

  abbrev pub put : A → SimpleBlockingQueue A → SimpleBlockingQueue A
  put x q = record q { queue = q.queue ++ (x ∷ []); pushed = q.pushed ++ (x ∷ []) }

  -- The end of `pop` and `try_pop`.
  abbrev pub take : List A → SimpleBlockingQueue A → Answer A × SimpleBlockingQueue A
  take [] q = (pops none, q)
  take (x ∷ xs) q = (pops (some x), record q { queue = xs; popped = q.popped ++ (x ∷ []) })

  abbrev pub is_empty : List A → Bool
  is_empty [] = true
  is_empty (x ∷ xs) = false

  -- `none` is a wait on `ready_` whose test does not pass.
  unfoldable pub step : Call A → SimpleBlockingQueue A → Option (Answer A × SimpleBlockingQueue A)
  step (push x) q = some (nothing, put x q)
  step (try_push x locked) q =
      if locked then some (pushes true, put x q) else some (pushes false, q)
  step pop q = if not (is_empty q.queue) || q.is_done then some (take q.queue q) else none
  step (try_pop locked) q = if locked then some (take q.queue q) else some (pops none, q)
  step done q = some (nothing, record q { is_done = true })

  pub empty : SimpleBlockingQueue A → Bool
  empty q = is_empty q.queue

  pub size : SimpleBlockingQueue A → ℕ
  size q = length q.queue % 2 ^ 32

  -- A call that has to wait is made again later.
  unfoldable pub run : List (Call A) → SimpleBlockingQueue A → SimpleBlockingQueue A
  unfolding step
  run [] q = q
  run (call ∷ calls) q =
      let rest = run calls in elim (step call q) [ none ↦ rest q | some (answer, q') ↦ rest q' ]
