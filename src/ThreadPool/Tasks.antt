-- ===== src/ThreadPool/Tasks.antt =====
-- sync/thread_pool.hpp, class `work_stealing_thread_pool`: no task is lost or run twice.
use native.Mathlib.Nat.{mod-lt}
use synchronization_library.Prelude.{
  ℕ, ◌+◌, ◌*◌, ◌%◌, ◌^◌, ◌<◌, ◌≡◌, refl, sym, ap, ◌∙◌, ◌||◌, ◌&&◌, not, ◌==◌, arith, Bool, true,
  false, none, some, List, [], ◌∷◌, ◌++◌, ltb, if◌then◌else◌, Bool-cases, inl, inr,
}
use synchronization_library.Queue.Simple
use synchronization_library.Queue.Simple.{
  SimpleBlockingQueue, Answer, nothing, pushes, pops, put, take, is_empty,
}
use synchronization_library.ThreadPool.Dispatch.{loop_k, probe}
use synchronization_library.ThreadPool.Stealing.{
  WorkStealingThreadPool, Pc, outside, placing, looking, running, ended, Call, post_work, go,
  put_queue, after_push, after_pop, step, initial,
}
use synchronization_library.ThreadPool.Counts.{count, waiting, in_hand, count-append, is_home}
use synchronization_library.Threads.{
  System, Reach, Reach-induction, After, update, total, total-update, total-const, total-eq-zero,
}

module _ {A : Type 0} (is : A → Bool) where
  module _ (n workers : ℕ) (some_worker : 0 < workers) where
    record Facts (s : System (WorkStealingThreadPool A) (Pc A)) : Type 0 where
      size : s.mem.pool.count ≡ workers
      not_done : (k : ℕ) → (s.mem.queues k).is_done ≡ false
      homes : (j : ℕ) → is_home workers j (s.pc j) ≡ true
      kept :
          count is s.mem.posted
          ≡ count is s.mem.taken
            + total (waiting is) workers s.mem.queues
            + total (in_hand is) n s.pc

    module _ (s : System (WorkStealingThreadPool A) (Pc A)) (i : ℕ) (lt : i < n) where
      -- Thread i moves, and what is posted is still where it was or has moved on.
      moves_on :
          (p p' : Pc A) (m : WorkStealingThreadPool A)
          → s.pc i ≡ p
          → m.pool.count ≡ workers
          → ((k : ℕ) → (m.queues k).is_done ≡ false)
          → is_home workers i p' ≡ true
          → count is m.posted
              + count is s.mem.taken
              + total (waiting is) workers s.mem.queues
              + in_hand is p
            ≡ count is s.mem.posted
              + count is m.taken
              + total (waiting is) workers m.queues
              + in_hand is p'
          → Facts s
          → Facts (record { mem = m; pc = update s.pc i p' })
      moves_on p p' m at sized still_open home balance f = record {
        size = sized;
        not_done = still_open;
        homes = λ j. ground (arith, home, f.homes j);
        kept = omega (arith, f.kept, balance, moved);
      }
        where
          moved :
              total (in_hand is) n (update s.pc i p') + in_hand is p
              ≡ total (in_hand is) n s.pc + in_hand is p'
          moved = rw (← at) (total-update (in_hand is) n s.pc i p' lt)

      -- The same where one queue changes.
      moves_queue :
          (p p' : Pc A) (k : ℕ) (q : SimpleBlockingQueue A) (taken : List A)
          → k < workers
          → s.pc i ≡ p
          → q.is_done ≡ false
          → is_home workers i p' ≡ true
          → count is s.mem.taken + waiting is (s.mem.queues k) + in_hand is p
            ≡ count is taken + waiting is q + in_hand is p'
          → Facts s
          → Facts (record {
            mem = record (put_queue k q s.mem) { taken = taken };
            pc = update s.pc i p';
          })
      moves_queue p p' k q taken k_lt at still_open home balance f =
          moves_on p p' (record (put_queue k q s.mem) { taken = taken }) at f.size
            (λ j. ground (arith, still_open, f.not_done j)) home
            (omega (arith, balance, total-update (waiting is) workers s.mem.queues k q k_lt)) f

      at_home : (p : Pc A) → s.pc i ≡ p → Facts s → is_home workers i p ≡ true
      at_home p at f = sym (ap (is_home workers i) at) ∙ f.homes i

      push-Facts :
          (task : A) (a b k : ℕ)
          → k < workers
          → s.pc i ≡ placing task a b
          → Facts s
          → Facts (record {
            mem = put_queue k (put task (s.mem.queues k)) s.mem;
            pc = update s.pc i outside;
          })
      push-Facts task a b k k_lt at f =
          moves_queue (placing task a b) outside k (put task (s.mem.queues k)) s.mem.taken k_lt at
            (f.not_done k) (at_home (placing task a b) at f)
            (ground (arith, count-append is (s.mem.queues k).queue task)) f

      -- A queue that is taken as it is.
      stays-Facts :
          (p p' : Pc A) (k : ℕ)
          → k < workers
          → s.pc i ≡ p
          → is_home workers i p' ≡ true
          → in_hand is p ≡ in_hand is p'
          → Facts s
          → Facts (record { mem = put_queue k (s.mem.queues k) s.mem; pc = update s.pc i p' })
      stays-Facts p p' k k_lt at home same f =
          moves_queue p p' k (s.mem.queues k) s.mem.taken k_lt at (f.not_done k) home
            (omega (arith, same)) f

      -- Worker w takes the first of the tasks of queue k, if there is one.
      take-Facts :
          (xs : List A) (w b k : ℕ) (next : Pc A)
          → (ltb w workers && w == i) ≡ true
          → k < workers
          → (s.mem.queues k).queue ≡ xs
          → s.pc i ≡ looking w b
          → is_home workers i next ≡ true
          → in_hand is next ≡ 0
          → Facts s
          → After Facts s i (after_pop k w next (some (take xs (s.mem.queues k))) s.mem)
      take-Facts [] w b k next own k_lt has at home empty_handed f =
          stays-Facts (looking w b) next k k_lt at home (sym empty_handed) f
      take-Facts (task ∷ tasks) w b k next own k_lt has at home empty_handed f =
          moves_queue (looking w b) (running w task) k _ (s.mem.taken ++ (task ∷ [])) k_lt at
            (f.not_done k) own (ground (arith, count-append is s.mem.taken task, ap (count is) has))
            f

      probe-lt : (a b : ℕ) → Facts s → probe s.mem.pool a b < workers
      probe-lt a b f = rw f.size (mod-lt _ some_worker)

      -- A post of a task, and a try of a worker, at any queue.
      try_push-Facts :
          (locked : Bool) (task : A) (a b k : ℕ)
          → k < workers
          → s.pc i ≡ placing task a b
          → Facts s
          → After Facts s i (
              after_push k
                (placing task a (b + 1))
                (Simple.step (Simple.try_push task locked) (s.mem.queues k))
                s.mem)
      unfolding Simple.step
      try_push-Facts true task a b k k_lt at f = push-Facts task a b k k_lt at f
      try_push-Facts false task a b k k_lt at f =
          stays-Facts (placing task a b) (placing task a (b + 1)) k k_lt at
            (at_home (placing task a b) at f) refl f

      try_pop-Facts :
          (locked : Bool) (w b k : ℕ)
          → k < workers
          → s.pc i ≡ looking w b
          → Facts s
          → After Facts s i (
              after_pop k w
                (looking w (b + 1))
                (Simple.step (Simple.try_pop locked) (s.mem.queues k))
                s.mem)
      unfolding Simple.step
      try_pop-Facts true w b k k_lt at f =
          take-Facts (s.mem.queues k).queue w b k (looking w (b + 1)) (at_home (looking w b) at f)
            k_lt refl at (at_home (looking w b) at f) refl f
      try_pop-Facts false w b k k_lt at f =
          stays-Facts (looking w b) (looking w (b + 1)) k k_lt at (at_home (looking w b) at f) refl
            f

      -- The last `pop`, at the queue of the worker itself: it waits where there is no task.
      pop-Facts :
          (xs : List A) (w b k : ℕ)
          → k < workers
          → (s.mem.queues k).queue ≡ xs
          → s.pc i ≡ looking w b
          → Facts s
          → After Facts s i (
              after_pop k w
                (ended w)
                (if not (is_empty xs) || (s.mem.queues k).is_done
                  then some (take xs (s.mem.queues k))
                  else none)
                s.mem)
      pop-Facts [] w b k k_lt has at f = rw (f.not_done k) tt
      pop-Facts (task ∷ tasks) w b k k_lt has at f =
          moves_queue (looking w b) (running w task) k _ (s.mem.taken ++ (task ∷ [])) k_lt at
            (f.not_done k) (at_home (looking w b) at f)
            (ground (arith, count-append is s.mem.taken task, ap (count is) has)) f

      step-Facts :
          (call : Call A) (p : Pc A) → s.pc i ≡ p → Facts s → After Facts s i (step call s.mem p)
      unfolding step Simple.step
      step-Facts (post_work task) outside at f =
          moves_on outside (placing task s.mem.pool.index 0) _ at f.size f.not_done
            (at_home outside at f) (ground (arith, count-append is s.mem.posted task)) f
      step-Facts (go locked) (placing task a b) at f =
          elim (Bool-cases (ltb b (s.mem.pool.count * loop_k % 2 ^ 32))) [
            | inl more ↦
                rw (more, After)
                  (try_push-Facts locked task a b (probe s.mem.pool a b) (probe-lt a b f) at f)
            | inr tried ↦
                rw (tried, After)
                  (push-Facts task a b (a % s.mem.pool.count) (rw f.size (mod-lt _ some_worker)) at
                    f)
          ]
      step-Facts (go locked) (looking w b) at f = elim (Bool-cases (ltb b s.mem.pool.count)) [
        | inl more ↦
            rw (more, After) (try_pop-Facts locked w b (probe s.mem.pool w b) (probe-lt w b f) at f)
        | inr tried ↦
            rw (tried, After)
              (pop-Facts (s.mem.queues w).queue w b w (ground (arith, at_home (looking w b) at f))
                refl at f)
      ]
      step-Facts (go locked) (running w task) at f =
          moves_on (running w task) (looking w 0) s.mem at f.size f.not_done
            (at_home (running w task) at f) (omega arith) f
      step-Facts call p at f = tt

    reached-Facts :
        {s : System (WorkStealingThreadPool A) (Pc A)} → Reach step n (initial workers) s → Facts s
    reached-Facts r =
        Reach-induction step Facts n (λ u i call p f lt at. step-Facts u i lt call p at f)
          (record {
            size = refl;
            not_done = λ k. refl;
            homes = λ j. first_homes j;
            kept = omega (
              arith,
              total-const (waiting is) workers Simple.initial refl,
              total-eq-zero (in_hand is) n (initial workers).pc (λ j lt. ground arith),
            );
          })
          r
      where
        first_homes : (j : ℕ) → is_home {A = A} workers j ((initial workers).pc j) ≡ true
        first_homes j = ground arith

    -- However `n` threads post tasks to a `work_stealing_thread_pool` over queues of the class
    -- `simple_blocking_queue`, and its workers take and run them, whichever tries get a mutex: of each
    -- kind of task, those that were posted are those that workers have taken out to run, those in the
    -- queues and those that a post has in hand. A worker stays one, and never leaves its loop.
    pub tasks_kept :
        {s : System (WorkStealingThreadPool A) (Pc A)}
        → Reach step n (initial workers) s
        → (count is s.mem.posted
            ≡ count is s.mem.taken
              + total (waiting is) workers s.mem.queues
              + total (in_hand is) n s.pc)
          × ((j : ℕ) → is_home workers j (s.pc j) ≡ true)
    tasks_kept {s} r = (facts.kept, facts.homes)
      where
        facts : Facts s
        facts = reached-Facts r
