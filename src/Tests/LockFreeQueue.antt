-- ===== src/Tests/LockFreeQueue.antt =====
-- `lock_free_queue` (sync/queue.hpp) at concrete schedules.
use synchronization_library.Prelude.{ℕ, ◌≤◌, ◌<◌, ◌≡◌, refl, arith, false, none, [], ◌∷◌}
use synchronization_library.Threads.Schedule.{run, Run}
use synchronization_library.Queue.LockFree.Run.{
  initial, step, make, push, pop, go, destroying, destroy,
}
use synchronization_library.Queue.LockFree.Bounds.{indices_bounded}

-- Two threads push over two slots; the first has taken its slot and not filled it when the second has
-- posted, and a third pops.
abbrev early_pop : Run step 3 (initial {A = ℕ} 2)
unfolding run step make
early_pop = run step 3 (initial 2) (
    (0, push 7)
    ∷ (1, push 8)
    ∷ (0, go false)
    ∷ (1, go false)
    ∷ (1, go false)
    ∷ (1, go false)
    ∷ (1, go false)
    ∷ (1, go false)
    ∷ (1, go false)
    ∷ (1, go false)
    ∷ (2, pop)
    ∷ (2, go false)
    ∷ (2, go false)
    ∷ [])

-- It moves an object out of a slot that has none.
reads_raw_memory : early_pop.last.pc 2 ≡ destroying 0 none
unfolding run step make
reads_raw_memory = refl

indices_bounded_example :
    (early_pop.last.mem.push_index < 4)
    × (early_pop.last.mem.pop_index < 4)
    × (early_pop.last.mem.count ≤ 2)
indices_bounded_example = indices_bounded 3 2 (omega arith) (omega arith) early_pop.reach

-- One thread pushes twice and pops once, over two slots.
abbrev one_left : Run step 1 (initial {A = ℕ} 2)
unfolding run step make
one_left = run step 1 (initial 2) (
    (0, push 7)
    ∷ (0, go false)
    ∷ (0, go false)
    ∷ (0, go false)
    ∷ (0, go false)
    ∷ (0, go false)
    ∷ (0, go false)
    ∷ (0, go false)
    ∷ (0, push 8)
    ∷ (0, go false)
    ∷ (0, go false)
    ∷ (0, go false)
    ∷ (0, go false)
    ∷ (0, go false)
    ∷ (0, go false)
    ∷ (0, go false)
    ∷ (0, pop)
    ∷ (0, go false)
    ∷ (0, go false)
    ∷ (0, go false)
    ∷ (0, go false)
    ∷ (0, go false)
    ∷ (0, go false)
    ∷ (0, go false)
    ∷ (0, go false)
    ∷ [])

-- The destructor destroys the object in slot 1.
destroys_one : destroy one_left.last.mem ≡ 1 ∷ []
unfolding run step make
destroys_one = refl
