-- ===== src/ThreadPool/Counts.antt =====
-- sync/thread_pool.hpp, class `work_stealing_thread_pool`: how many tasks of a kind there are, and where,
-- and which threads are workers.
use synchronization_library.Prelude.{
  ℕ, suc, ◌+◌, ◌≡◌, arith, Bool, false, List, [], ◌∷◌, ◌++◌, ltb, ◌&&◌, not, ◌==◌, if◌then◌else◌,
}
use synchronization_library.Queue.Simple.{SimpleBlockingQueue}
use synchronization_library.ThreadPool.Stealing.{Pc, placing, looking, running, ended}

module _ {A : Type 0} where
  -- Thread j is a worker just where it is below `workers`, and a worker has its number and goes on.
  abbrev pub is_home : (workers j : ℕ) → Pc A → Bool
  is_home workers j (looking i n) = ltb i workers && i == j
  is_home workers j (running i task) = ltb i workers && i == j
  is_home workers j (ended i) = false
  is_home workers j p = not (ltb j workers)

module _ {A : Type 0} (is : A → Bool) where
  -- How many tasks of a kind stand in a list, in a queue, and on the way to one.
  abbrev pub count : List A → ℕ
  count [] = 0
  count (task ∷ tasks) = if is task then suc (count tasks) else count tasks

  abbrev pub waiting : SimpleBlockingQueue A → ℕ
  waiting q = count q.queue

  abbrev pub in_hand : Pc A → ℕ
  in_hand (placing task i n) = if is task then 1 else 0
  in_hand p = 0

  pub count-append :
      (xs : List A) (task : A) → count (xs ++ (task ∷ [])) ≡ count xs + count (task ∷ [])
  count-append [] task = omega arith
  count-append (x ∷ xs) task = ground (arith, count-append xs task)
