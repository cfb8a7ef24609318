-- ===== src/ThreadPool/Served.antt =====
-- sync/thread_pool.hpp, class `work_stealing_thread_pool`: where no worker can go on, no task waits.
use synchronization_library.Prelude.{
  ℕ, ◌+◌, ◌<◌, ◌≡◌, ◌≢◌, refl, ap, ◌∙◌, ◌||◌, not, arith, Bool, true, false, none, some, List, [],
  ◌∷◌, ltb, if◌then◌else◌, Bool-cases, inl, inr,
}
use synchronization_library.Queue.Simple
use synchronization_library.Queue.Simple.{
  SimpleBlockingQueue, Answer, nothing, pushes, pops, take, is_empty,
}
use synchronization_library.ThreadPool.Dispatch.{probe}
use synchronization_library.ThreadPool.Stealing.{
  WorkStealingThreadPool, Pc, outside, placing, looking, running, ended, go, after_pop, step,
  initial,
}
use synchronization_library.ThreadPool.Counts.{count, waiting, in_hand, is_home}
use synchronization_library.ThreadPool.Tasks.{tasks_kept}
use synchronization_library.Threads.{System, Reach, total, total-eq-zero}

module _ {A : Type 0} (is : A → Bool) where
  -- A worker that cannot move waits at its own queue, which has no task.
  take-moves :
      (xs : List A) (k i : ℕ) (next : Pc A) (q : SimpleBlockingQueue A)
      (m : WorkStealingThreadPool A)
      → after_pop k i next (some (take xs q)) m ≢ none
  take-moves [] k i next q m e = absurd (ground (arith, e))
  take-moves (task ∷ tasks) k i next q m e = absurd (ground (arith, e))

  try_pop-moves :
      (locked : Bool) (k i : ℕ) (next : Pc A) (q : SimpleBlockingQueue A)
      (m : WorkStealingThreadPool A)
      → after_pop k i next (Simple.step (Simple.try_pop locked) q) m ≢ none
  unfolding Simple.step
  try_pop-moves true k i next q m e = take-moves q.queue k i next q m e
  try_pop-moves false k i next q m e = absurd (ground (arith, e))

  pop-waits :
      (xs : List A) (k i : ℕ) (next : Pc A) (q : SimpleBlockingQueue A)
      (m : WorkStealingThreadPool A)
      → after_pop k i next (if not (is_empty xs) || q.is_done then some (take xs q) else none) m
        ≡ none
      → count is xs ≡ 0
  pop-waits [] k i next q m e = refl
  pop-waits (task ∷ tasks) k i next q m e = absurd (ground (arith, e))

  waits-empty :
      (m : WorkStealingThreadPool A) (workers w : ℕ) (locked : Bool) (p : Pc A)
      → w < workers
      → is_home workers w p ≡ true
      → step (go locked) m p ≡ none
      → waiting is (m.queues w) ≡ 0
  unfolding step Simple.step
  waits-empty m workers w locked outside lt home e = absurd (ground (arith, home, lt))
  waits-empty m workers w locked (placing task a b) lt home e = absurd (ground (arith, home, lt))
  waits-empty m workers w locked (running i task) lt home e = absurd (ground (arith, e))
  waits-empty m workers w locked (ended i) lt home e = absurd (ground (arith, home))
  waits-empty m workers w locked (looking i b) lt home e = elim (Bool-cases (ltb b m.pool.count)) [
    | inl more ↦ absurd (
        try_pop-moves locked (probe m.pool i b) i (looking i (b + 1)) (m.queues (probe m.pool i b))
          m (rw more at e))
    | inr tried ↦
        ap (λ k. waiting is (m.queues k)) own
        ∙ pop-waits (m.queues i).queue i i (ended i) (m.queues i) m (rw tried at e)
  ]
    where
      own : w ≡ i
      own = ground (arith, home)

  -- However `n` threads have used a `work_stealing_thread_pool` over queues of the class
  -- `simple_blocking_queue`: where none of its workers can go on, every task whose post is over has been
  -- taken out to run, of each kind as often as it was posted.
  pub all_taken :
      (n workers : ℕ)
      → 0 < workers
      → {s : System (WorkStealingThreadPool A) (Pc A)} → Reach step n (initial workers) s
      → ((w : ℕ) → w < workers → (locked : Bool) × (step (go locked) s.mem (s.pc w) ≡ none))
      → count is s.mem.posted ≡ count is s.mem.taken + total (in_hand is) n s.pc
  all_taken n workers some_worker {s} r waits =
      omega (arith, (tasks_kept is n workers some_worker r).0, none_queued)
    where
      none_queued : total (waiting is) workers s.mem.queues ≡ 0
      none_queued = total-eq-zero (waiting is) workers s.mem.queues (λ w lt.
          waits-empty s.mem workers w (waits w lt).0 (s.pc w) lt
            ((tasks_kept is n workers some_worker r).1 w) (waits w lt).1)
