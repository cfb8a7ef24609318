-- ===== src/Queue/LockFree/Invariant.antt =====
-- sync/queue.hpp, class `lock_free_queue`: what its semaphores, its indices and `count_` stand for, as
-- sums over the threads.
use synchronization_library.Prelude.{ℕ, ◌+◌, ◌<◌, ◌≡◌, ◌==◌, if◌then◌else◌, ltb}
use synchronization_library.Threads.{System, update, total, total-update}
use synchronization_library.Queue.LockFree.Run.{
  LockFreeQueue, pushing, popping, Pc, idle, push_admitted, constructing, pop_admitted, moving,
  destroying, counting, loading, reducing, swapping, posting,
}

-- How many threads are in each stage of a push and of a pop, and how many are about to store an index
-- that is too large.
pub record Counts : Type 0 where
  pub pushers_admitted : ℕ
  pub pushers_filling : ℕ
  pub pushers_wrapping : ℕ
  pub pushers_posting : ℕ
  pub poppers_admitted : ℕ
  pub poppers_emptying : ℕ
  pub poppers_wrapping : ℕ
  pub poppers_posting : ℕ
  pub large : ℕ

-- The state of a queue made for `size`, with its threads so placed.
pub record Facts {A : Type 0} (size : ℕ) (q : LockFreeQueue A) (c : Counts) : Type 0 where
  pub made_for : q.size ≡ size
  pub permits :
      q.open_slots.count + q.full_slots.count + c.pushers_admitted + c.pushers_filling
        + c.pushers_wrapping + c.pushers_posting + c.poppers_admitted + c.poppers_emptying
        + c.poppers_wrapping + c.poppers_posting
      ≡ size
  pub counted :
      q.count
      ≡ q.full_slots.count + c.pushers_wrapping + c.pushers_posting + c.poppers_admitted
        + c.poppers_emptying
  pub push_bound : q.push_index < size + c.pushers_filling + c.pushers_wrapping
  pub pop_bound : q.pop_index < size + c.poppers_emptying + c.poppers_wrapping
  pub reduced : c.large ≡ 0

module _ {A : Type 0} where
  -- How far a call has come: 1 to 4 in a push, 5 to 8 in a pop, each from the semaphore to the index, to
  -- `count_`, to the exchange of the index, to the post.
  abbrev pub stage : Pc A → ℕ
  stage idle = 0
  stage (push_admitted x) = 1
  stage (constructing x index) = 2
  stage (counting pushing) = 2
  stage (loading pushing) = 3
  stage (reducing pushing e) = 3
  stage (swapping pushing e d) = 3
  stage (posting pushing) = 4
  stage pop_admitted = 5
  stage (moving index) = 6
  stage (destroying index item) = 6
  stage (counting (popping item)) = 6
  stage (loading (popping item)) = 7
  stage (reducing (popping item) e) = 7
  stage (swapping (popping item) e d) = 7
  stage (posting (popping item)) = 8

  abbrev pub in_stage : ℕ → Pc A → ℕ
  in_stage k p = if stage p == k then 1 else 0

  -- A thread is about to store an index that is too large.
  abbrev pub too_large : ℕ → Pc A → ℕ
  too_large size (swapping side e d) = if ltb d size then 0 else 1
  too_large size p = 0

  abbrev pub counts : (n size : ℕ) → (ℕ → Pc A) → Counts
  counts n size pc = record {
    pushers_admitted = total (in_stage 1) n pc;
    pushers_filling = total (in_stage 2) n pc;
    pushers_wrapping = total (in_stage 3) n pc;
    pushers_posting = total (in_stage 4) n pc;
    poppers_admitted = total (in_stage 5) n pc;
    poppers_emptying = total (in_stage 6) n pc;
    poppers_wrapping = total (in_stage 7) n pc;
    poppers_posting = total (in_stage 8) n pc;
    large = total (too_large size) n pc;
  }

  abbrev pub Inv : ℕ → ℕ → System (LockFreeQueue A) (Pc A) → Type 0
  Inv n size s = Facts size s.mem (counts n size s.pc)

  -- A thread goes from p to p'.
  pub record Shift (size : ℕ) (p p' : Pc A) (c d : Counts) : Type 0 where
    pub stage1 : d.pushers_admitted + in_stage 1 p ≡ c.pushers_admitted + in_stage 1 p'
    pub stage2 : d.pushers_filling + in_stage 2 p ≡ c.pushers_filling + in_stage 2 p'
    pub stage3 : d.pushers_wrapping + in_stage 3 p ≡ c.pushers_wrapping + in_stage 3 p'
    pub stage4 : d.pushers_posting + in_stage 4 p ≡ c.pushers_posting + in_stage 4 p'
    pub stage5 : d.poppers_admitted + in_stage 5 p ≡ c.poppers_admitted + in_stage 5 p'
    pub stage6 : d.poppers_emptying + in_stage 6 p ≡ c.poppers_emptying + in_stage 6 p'
    pub stage7 : d.poppers_wrapping + in_stage 7 p ≡ c.poppers_wrapping + in_stage 7 p'
    pub stage8 : d.poppers_posting + in_stage 8 p ≡ c.poppers_posting + in_stage 8 p'
    pub stores : d.large + too_large size p ≡ c.large + too_large size p'

  pub shift :
      (n size : ℕ) (pc : ℕ → Pc A) (i : ℕ) (p : Pc A)
      → i < n
      → pc i ≡ p
      → (p' : Pc A) → Shift size p p' (counts n size pc) (counts n size (update pc i p'))
  shift n size pc i p lt at p' = record {
    stage1 = moved 1;
    stage2 = moved 2;
    stage3 = moved 3;
    stage4 = moved 4;
    stage5 = moved 5;
    stage6 = moved 6;
    stage7 = moved 7;
    stage8 = moved 8;
    stores = rw (← at) (total-update (too_large size) n pc i p' lt);
  }
    where
      moved :
          (k : ℕ)
          → total (in_stage k) n (update pc i p') + in_stage k p
            ≡ total (in_stage k) n pc + in_stage k p'
      moved k = rw (← at) (total-update (in_stage k) n pc i p' lt)
