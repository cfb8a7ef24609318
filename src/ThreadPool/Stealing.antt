-- ===== src/ThreadPool/Stealing.antt =====
-- sync/thread_pool.hpp, class `work_stealing_thread_pool`, over the class `simple_blocking_queue` for the
-- Queue of its template: the threads, one call on a queue a step. Threads 0 to `count` - 1 are its
-- workers, and the others post.
use synchronization_library.Prelude.{
  ℕ, ◌+◌, ◌*◌, ◌%◌, ◌^◌, Bool, false, Option, none, some, List, [], ◌∷◌, ◌++◌, ltb, if◌then◌else◌,
}
use synchronization_library.Queue.Simple
use synchronization_library.Queue.Simple.{SimpleBlockingQueue, Answer, pushes, pops}
use synchronization_library.ThreadPool.Dispatch
use synchronization_library.ThreadPool.Dispatch.{Pool, loop_k, probe}
use synchronization_library.Threads.{System, update}

-- `index_` and `count_`, and `queues_`. `posted` and `taken` are no fields: they record the tasks of the
-- posts that have begun, and the tasks that workers have popped to run.
pub record WorkStealingThreadPool (A : Type 0) : Type 0 where
  pub pool : Pool
  pub queues : ℕ → SimpleBlockingQueue A
  pub posted : List A
  pub taken : List A

-- Where a thread stands; i is what `index_` gave to a post, or the number of a worker, and n counts the
-- turns of its loop.
pub data Pc (A : Type 0) : Type 0 where
  outside : Pc A
  placing : A → (i n : ℕ) → Pc A
  looking : (i n : ℕ) → Pc A
  running : (i : ℕ) → A → Pc A
  ended : (i : ℕ) → Pc A

-- `locked` is whether a try gets the mutex of its queue.
pub data Call (A : Type 0) : Type 0 where
  post_work : A → Call A
  go : (locked : Bool) → Call A

module _ {A : Type 0} where
  abbrev pub put_queue :
      ℕ → SimpleBlockingQueue A → WorkStealingThreadPool A → WorkStealingThreadPool A
  put_queue k q m = record m { queues = update m.queues k q }

  -- After a `try_push` or a `push` to queue k.
  abbrev pub after_push :
      (k : ℕ) (next : Pc A)
      → Option (Answer A × SimpleBlockingQueue A)
      → WorkStealingThreadPool A
      → Option (WorkStealingThreadPool A × Pc A)
  after_push k next none m = none
  after_push k next (some (pushes false, q)) m = some (put_queue k q m, next)
  after_push k next (some (answer, q)) m = some (put_queue k q m, outside)

  -- After a `try_pop` or a `pop` of queue k by worker i; `next` is where it goes without a task.
  abbrev pub after_pop :
      (k i : ℕ) (next : Pc A)
      → Option (Answer A × SimpleBlockingQueue A)
      → WorkStealingThreadPool A
      → Option (WorkStealingThreadPool A × Pc A)
  after_pop k i next (some (pops (some task), q)) m =
      some (record (put_queue k q m) { taken = m.taken ++ (task ∷ []) }, running i task)
  after_pop k i next (some (pops none, q)) m = some (put_queue k q m, next)
  after_pop k i next _ m = none

  -- `post_task` does as `post_work`.
  unfoldable pub step :
      Call A → WorkStealingThreadPool A → Pc A → Option (WorkStealingThreadPool A × Pc A)
  unfolding Simple.step
  step (post_work task) m outside = some (
    record m {
      pool = record m.pool { index = (m.pool.index + 1) % 2 ^ 32 };
      posted = m.posted ++ (task ∷ []);
    },
    placing task m.pool.index 0,
  )
  step (go locked) m (placing task i n) =
      if ltb n (m.pool.count * loop_k % 2 ^ 32)
      then after_push (probe m.pool i n) (placing task i (n + 1))
          (Simple.step (Simple.try_push task locked) (m.queues (probe m.pool i n))) m
      else after_push (i % m.pool.count) outside
          (Simple.step (Simple.push task) (m.queues (i % m.pool.count))) m
  step (go locked) m (looking i n) =
      if ltb n m.pool.count
      then after_pop (probe m.pool i n) i (looking i (n + 1))
          (Simple.step (Simple.try_pop locked) (m.queues (probe m.pool i n))) m
      else after_pop i i (ended i) (Simple.step Simple.pop (m.queues i)) m
  step (go locked) m (running i task) = some (m, looking i 0)
  step call m p = none

  abbrev pub initial : (workers : ℕ) → System (WorkStealingThreadPool A) (Pc A)
  initial workers = record {
    mem = record {
      pool = Dispatch.make workers;
      queues = λ _. Simple.initial;
      posted = [];
      taken = [];
    };
    pc = λ i. if ltb i workers then looking i 0 else outside;
  }
