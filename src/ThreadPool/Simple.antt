-- ===== src/ThreadPool/Simple.antt =====
-- sync/thread_pool.hpp, class `simple_thread_pool`, over the class `simple_blocking_queue` for the Queue
-- of its template. Threads 0 to `workers` - 1 are its workers, and the others post.
use mathlib.Core.List.{append_assoc}
use synchronization_library.Prelude.{
  ℕ, ◌≡◌, ◌≢◌, refl, sym, ap, ◌∙◌, ◌||◌, not, arith, Bool, true, false, Option, none, some, List,
  [], ◌∷◌, ◌++◌, ltb, if◌then◌else◌,
}
use synchronization_library.Queue.Simple
use synchronization_library.Queue.Simple.{
  SimpleBlockingQueue, Answer, nothing, pushes, pops, take, is_empty,
}
use synchronization_library.Threads.{System, Reach, Reach-induction, After, update}

-- `queue_`. `taken` is no field: it records the tasks that workers have popped to run, oldest
-- first.
pub record SimpleThreadPool (A : Type 0) : Type 0 where
  pub queue : SimpleBlockingQueue A
  pub taken : List A

-- Where a thread stands.
pub data Pc (A : Type 0) : Type 0 where
  outside : Pc A  -- of the pool, which it may post to
  looking : Pc A  -- a worker before `queue_.pop()`
  running : A → Pc A  -- a worker that runs a task
  ended : Pc A  -- a worker that has left its loop

pub data Call (A : Type 0) : Type 0 where
  post_work : A → Call A
  go : Call A

module _ {A : Type 0} where
  -- What the worker does with what `pop` gives.
  abbrev pub receive :
      Option (Answer A × SimpleBlockingQueue A)
      → SimpleThreadPool A
      → Option (SimpleThreadPool A × Pc A)
  receive none m = none
  receive (some (pops (some task), q)) m =
      some (record m { queue = q; taken = m.taken ++ (task ∷ []) }, running task)
  receive (some (pops none, q)) m = some (record m { queue = q }, ended)
  receive (some (nothing, q)) m = none
  receive (some (pushes b, q)) m = none

  -- `push` never waits.
  abbrev pub posted :
      Option (Answer A × SimpleBlockingQueue A)
      → SimpleThreadPool A
      → Option (SimpleThreadPool A × Pc A)
  posted none m = none
  posted (some (answer, q)) m = some (record m { queue = q }, outside)

  -- One step of one thread; `post_task` does as `post_work`.
  unfoldable pub step : Call A → SimpleThreadPool A → Pc A → Option (SimpleThreadPool A × Pc A)
  unfolding Simple.step
  step (post_work task) m outside = posted (Simple.step (Simple.push task) m.queue) m
  step go m looking = receive (Simple.step Simple.pop m.queue) m
  step go m (running task) = some (m, looking)
  step call m p = none

  abbrev pub initial : (workers : ℕ) → System (SimpleThreadPool A) (Pc A)
  initial workers = record {
    mem = record { queue = Simple.initial; taken = [] };
    pc = λ i. if ltb i workers then looking else outside;
  }

  abbrev has_ended : Pc A → Bool
  has_ended ended = true
  has_ended p = false

  -- Nobody calls `done`, and the workers run what the queue has given.
  record Facts (s : System (SimpleThreadPool A) (Pc A)) : Type 0 where
    not_done : s.mem.queue.is_done ≡ false
    ordered : s.mem.queue.pushed ≡ s.mem.taken ++ s.mem.queue.queue
    alive : (i : ℕ) → has_ended (s.pc i) ≡ false

  stays_alive :
      (pc : ℕ → Pc A) (i : ℕ) (q : Pc A)
      → has_ended q ≡ false
      → ((j : ℕ) → has_ended (pc j) ≡ false)
      → (j : ℕ) → has_ended (update pc i q j) ≡ false
  stays_alive pc i q lives alive j = ground (arith, lives, alive j)

  -- The worker's `pop`, by what is in the queue.
  pop-Facts :
      (xs : List A) (s : System (SimpleThreadPool A) (Pc A)) (i : ℕ)
      → s.mem.queue.queue ≡ xs
      → Facts s
      → After Facts s i (
          receive
            (if not (is_empty xs) || s.mem.queue.is_done then some (take xs s.mem.queue) else none)
            s.mem)
  pop-Facts [] s i at f = rw (f.not_done) tt
  pop-Facts (task ∷ tasks) s i at f = record {
    not_done = f.not_done;
    ordered =
        f.ordered
        ∙ ap (λ ys. s.mem.taken ++ ys) at
        ∙ sym (append_assoc s.mem.taken (task ∷ []) tasks);
    alive = stays_alive s.pc i (running task) refl f.alive;
  }

  step-Facts :
      (call : Call A) (s : System (SimpleThreadPool A) (Pc A)) (i : ℕ) (p : Pc A)
      → Facts s
      → After Facts s i (step call s.mem p)
  unfolding step Simple.step
  step-Facts (post_work task) s i outside f = record {
    not_done = f.not_done;
    ordered =
        ap (λ ys. ys ++ (task ∷ [])) f.ordered
        ∙ append_assoc s.mem.taken s.mem.queue.queue (task ∷ []);
    alive = stays_alive s.pc i outside refl f.alive;
  }
  step-Facts go s i looking f = pop-Facts s.mem.queue.queue s i refl f
  step-Facts go s i (running task) f = record {
    not_done = f.not_done;
    ordered = f.ordered;
    alive = stays_alive s.pc i looking refl f.alive;
  }
  step-Facts call s i p f = tt

  -- Whatever `n` threads do with a `simple_thread_pool` over a `simple_blocking_queue`: the tasks that
  -- its workers have taken out to run and those that wait are all that were posted, in the order of
  -- posting; and no worker ever leaves its loop, so that the join in the destructor does not return.
  pub worker_stays :
      (n workers : ℕ) {s : System (SimpleThreadPool A) (Pc A)}
      → Reach step n (initial workers) s
      → (s.mem.queue.pushed ≡ s.mem.taken ++ s.mem.queue.queue) × ((i : ℕ) → s.pc i ≢ ended)
  worker_stays n workers {s} r = (facts.ordered, λ i over. cc (facts.alive i, ap has_ended over))
    where
      facts : Facts s
      facts =
          Reach-induction step Facts n (λ u i call p f lt at. step-Facts call u i p f)
            (record { not_done = refl; ordered = refl; alive = λ i. starts i }) r
        where
          starts : (i : ℕ) → has_ended ((initial workers).pc i) ≡ false
          starts i = ground arith
