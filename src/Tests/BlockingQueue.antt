-- ===== src/Tests/BlockingQueue.antt =====
-- `blocking_queue` (sync/queue.hpp) at concrete rings and schedules.
use synchronization_library.Prelude.{
  ℕ, ◌≤◌, ◌≡◌, ◌≢◌, refl, arith, List, none, some, [], ◌∷◌, ◌++◌, length, get_elem?,
}
use synchronization_library.Threads.Schedule.{run, Run}
use synchronization_library.Queue.Blocking.Ring
use synchronization_library.Queue.Blocking.Ring.{Ring, Holds}
use synchronization_library.Queue.Blocking.Run.{
  step, make, initial, push, try_push, pop, go, pushing, fault,
}
use synchronization_library.Queue.Blocking.Safety.{fifo_order, slot_safety}

-- 8, then 9, round the end of three slots.
abbrev wrapped : Ring ℕ
wrapped = record {
  slots = some 9 ∷ none ∷ some 8 ∷ [];
  size = 3;
  push_index = 1;
  pop_index = 2;
  count = 2;
}

destroys_both : Ring.destroy wrapped ≡ some (8 ∷ 9 ∷ [], none ∷ none ∷ none ∷ [])
unfolding Ring.destroy
destroys_both = refl

-- Two producers and a consumer over two slots; the last push waits for a slot.
abbrev two_in : Run step 3 (initial {A = ℕ} 2)
unfolding run step make Ring.push_slot Ring.pop_slot Ring.drop_slot
two_in =
    run step 3 (initial 2)
      ((0, push 5) ∷ (1, push 6) ∷ (1, go) ∷ (1, go) ∷ (2, pop) ∷ (0, push 7) ∷ (2, go) ∷ [])

-- The same until every thread is outside.
abbrev settled : Run step 3 (initial {A = ℕ} 2)
unfolding run step make Ring.push_slot Ring.pop_slot Ring.drop_slot
settled = run step 3 (initial 2) (
    (0, push 5)
    ∷ (1, push 6)
    ∷ (1, go)
    ∷ (1, go)
    ∷ (2, pop)
    ∷ (2, go)
    ∷ (2, go)
    ∷ (0, go)
    ∷ (0, go)
    ∷ (1, try_push 4)
    ∷ (1, go)
    ∷ (1, go)
    ∷ (2, try_push 3)
    ∷ [])

settled_contents :
    (settled.last.mem.pushed ≡ 6 ∷ 5 ∷ 4 ∷ [])
    × (settled.last.mem.popped ≡ 6 ∷ [])
    × (settled.last.mem.ring.count ≡ 2)
unfolding run step make Ring.push_slot Ring.pop_slot Ring.drop_slot
settled_contents = (refl, refl, refl)

fifo_order_example :
    (xs : List ℕ) × Holds settled.last.mem.ring xs
    × (settled.last.mem.pushed ≡ settled.last.mem.popped ++ xs)
    × (length xs ≤ 2)
unfolding run step make Ring.push_slot Ring.pop_slot Ring.drop_slot
fifo_order_example = fifo_order 3 2 (omega arith) (omega arith) settled.reach

slot_safety_example :
    (two_in.last.pc 0 ≢ fault)
    × ((x : ℕ)
        → two_in.last.pc 0 ≡ pushing x
        → get_elem? two_in.last.mem.ring.slots two_in.last.mem.ring.push_index ≡ some none)
unfolding run step make Ring.push_slot Ring.pop_slot Ring.drop_slot
slot_safety_example = slot_safety 3 2 (omega arith) (omega arith) two_in.reach 0 (omega arith)
