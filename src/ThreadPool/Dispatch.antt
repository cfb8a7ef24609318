-- ===== src/ThreadPool/Dispatch.antt =====
-- sync/thread_pool.hpp, class `work_stealing_thread_pool`: how a task finds a queue, and how a worker
-- finds a task. The class of the queues is a template parameter, and other threads use them too: what
-- the n-th try of a call answers is an argument.
use synchronization_library.Prelude.{
  ℕ, zero, suc, ◌+◌, ◌*◌, ◌%◌, ◌^◌, Bool, Option, none, some, List, [], ◌∷◌, if◌then◌else◌,
}

-- `LOOP_K`
abbrev pub loop_k : ℕ
loop_k = 2

-- The queues are numbered below `count`, which is the number of threads.
pub record Pool : Type 0 where
  pub index : ℕ
  pub count : ℕ

abbrev pub make : ℕ → Pool
make num_threads = record { index = 0; count = num_threads }

-- A call that is made on a queue.
pub data Attempt : Type 0 where
  refused : (queue : ℕ) → Attempt  -- `try_push` or `try_pop`, which failed
  accepted : (queue : ℕ) → Attempt  -- one which did not
  waited : (queue : ℕ) → Attempt  -- `push` or `pop`, which waits

-- `(i + n) % count_`
abbrev pub probe : Pool → (i n : ℕ) → ℕ
probe pool i n = (i + n) % 2 ^ 32 % pool.count

-- The loop of `post_work` and `post_task`, with `left` turns left, and what comes behind it.
unfoldable pub place : Pool → (i : ℕ) → (taken : ℕ → Bool) → (left n : ℕ) → List Attempt
place pool i taken zero n = waited (i % pool.count) ∷ []
place pool i taken (suc left) n =
    let rest = place pool i taken left (n + 1) in
    if taken n then accepted (probe pool i n) ∷ [] else refused (probe pool i n) ∷ rest

-- `post_work`; `post_task` does the same with its task.
unfoldable pub post_work : (taken : ℕ → Bool) → Pool → Pool × List Attempt
unfolding place
post_work taken pool = (
  record pool { index = (pool.index + 1) % 2 ^ 32 },
  place pool pool.index taken (pool.count * loop_k % 2 ^ 32) 0,
)

module _ {A : Type 0} where
  -- The loop of worker i over the queues, and what comes behind it: `pop` of its own queue, which may
  -- have no task either.
  unfoldable pub look :
      Pool → (i : ℕ) → (popped : ℕ → Option A) → Option A → (left n : ℕ) → List Attempt × Option A
  look pool i popped last zero n = (waited i ∷ [], last)
  look pool i popped last (suc left) n =
      let rest = look pool i popped last left (n + 1) in
      elim (popped n) [
        | some task ↦ (accepted (probe pool i n) ∷ [], some task)
        | none ↦ (refused (probe pool i n) ∷ rest.0, rest.1)
      ]

  -- One turn of worker i: the task that it runs next, `none` where it ends.
  unfoldable pub next_task :
      Pool → (i : ℕ) → (popped : ℕ → Option A) → Option A → List Attempt × Option A
  unfolding look
  next_task pool i popped last = look pool i popped last pool.count 0
