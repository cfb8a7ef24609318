-- ===== src/Queue/LockFree/Bounds.antt =====
-- sync/queue.hpp, class `lock_free_queue`: its indices and `count_` stay in their bounds.
use synchronization_library.Prelude.{
  ℕ, ◌+◌, ◌*◌, ◌%◌, ◌^◌, ◌≤◌, ◌<◌, ◌≡◌, refl, arith, Bool, not, ◌&&◌, ◌==◌, Option, Bool-cases, inl,
  inr,
}
use synchronization_library.Semaphore
use synchronization_library.Threads.{
  System, Reach, Reach-induction, After, update, total, total-const, total-eq-zero,
}
use synchronization_library.Queue.LockFree.Run.{
  LockFreeQueue, Side, pushing, popping, Pc, idle, push_admitted, constructing, pop_admitted,
  moving, destroying, counting, loading, reducing, swapping, posting, index_of, Call, push,
  try_push, pop, try_pop, go, begin, proceed, step, make, initial,
}
use synchronization_library.Queue.LockFree.Invariant.{
  counts, Facts, Inv, Shift, shift, stage, in_stage, too_large,
}
use synchronization_library.Queue.LockFree.Steps.{
  admit_push-Facts, admit_pop-Facts, keep-Facts, claim_push-Facts, claim_pop-Facts,
  count_push-Facts, count_pop-Facts, store-Facts, post_push-Facts, post_pop-Facts,
}

module _ {A : Type 0} (n size : ℕ) (nonempty : 0 < size) (fits : 2 * size ≤ 2 ^ 32) where
  module _ (s : System (LockFreeQueue A) (Pc A)) (i : ℕ) (inv : Inv n size s) (lt : i < n) where
    -- Where the thread goes to `p'`.
    move :
        (p : Pc A)
        → s.pc i ≡ p
        → (p' : Pc A) → Shift size p p' (counts n size s.pc) (counts n size (update s.pc i p'))
    move p at p' = shift n size s.pc i p lt at p'

    kept :
        (p : Pc A)
        → s.pc i ≡ p
        → (p' : Pc A) (slots : ℕ → Option A) → stage p ≡ stage p'
        → too_large size p' ≡ 0
        → Facts size (record (s.mem) { data_slots = slots }) (counts n size (update s.pc i p'))
    kept p at p' slots same small =
        keep-Facts size nonempty fits inv p p' slots same small (move p at p')

    begin-Inv : (call : Call A) → s.pc i ≡ idle → After (Inv n size) s i (begin call s.mem)
    unfolding begin Semaphore.wait Semaphore.wait_for
    begin-Inv (push x) at = elim (Bool-cases (s.mem.open_slots.count == 0)) [
      | inl none_open ↦ rw (none_open, After) tt
      | inr some_open ↦
          rw (some_open, After)
            (admit_push-Facts size nonempty fits inv x _ (move idle at (push_admitted x))
              (ground arith))
    ]
    begin-Inv (try_push x) at = elim (Bool-cases (s.mem.open_slots.count == 0)) [
      | inl none_open ↦ rw (none_open, After) (kept idle at idle s.mem.data_slots refl refl)
      | inr some_open ↦
          rw (some_open, After)
            (admit_push-Facts size nonempty fits inv x _ (move idle at (push_admitted x))
              (ground arith))
    ]
    begin-Inv pop at = elim (Bool-cases (s.mem.full_slots.count == 0)) [
      | inl none_full ↦ rw (none_full, After) tt
      | inr some_full ↦
          rw (some_full, After)
            (admit_pop-Facts size nonempty fits inv _ (move idle at pop_admitted) (ground arith))
    ]
    begin-Inv try_pop at = elim (Bool-cases (s.mem.full_slots.count == 0)) [
      | inl none_full ↦ rw (none_full, After) (kept idle at idle s.mem.data_slots refl refl)
      | inr some_full ↦
          rw (some_full, After)
            (admit_pop-Facts size nonempty fits inv _ (move idle at pop_admitted) (ground arith))
    ]
    begin-Inv (go spurious) at = tt

    same_stage : (side : Side A) (e d : ℕ) → stage (reducing side e) ≡ stage (swapping side e d)
    same_stage pushing e d = refl
    same_stage (popping item) e d = refl

    reducing-stage : (side : Side A) (e : ℕ) → stage (loading side) ≡ stage (reducing side e)
    reducing-stage pushing e = refl
    reducing-stage (popping item) e = refl

    loading-stage : (side : Side A) (e d : ℕ) → stage (swapping side e d) ≡ stage (loading side)
    loading-stage pushing e d = refl
    loading-stage (popping item) e d = refl

    proceed-Inv :
        (spurious : Bool) (p : Pc A)
        → s.pc i ≡ p
        → After (Inv n size) s i (proceed spurious s.mem p)
    unfolding proceed Semaphore.post
    proceed-Inv spurious idle at = tt
    proceed-Inv spurious (push_admitted x) at =
        claim_push-Facts size nonempty fits inv x
          (move (push_admitted x) at (constructing x s.mem.push_index))
    proceed-Inv spurious (constructing x index) at =
        kept (constructing x index) at (counting pushing) _ refl refl
    proceed-Inv spurious pop_admitted at =
        claim_pop-Facts size nonempty fits inv (move pop_admitted at (moving s.mem.pop_index))
    proceed-Inv spurious (moving index) at =
        kept (moving index) at (destroying index (s.mem.data_slots (index % s.mem.size)))
          s.mem.data_slots refl refl
    proceed-Inv spurious (destroying index item) at =
        kept (destroying index item) at (counting (popping item)) _ refl refl
    proceed-Inv spurious (counting pushing) at =
        count_push-Facts size nonempty fits inv (move (counting pushing) at (loading pushing))
    proceed-Inv spurious (counting (popping item)) at =
        count_pop-Facts size nonempty fits inv item
          (move (counting (popping item)) at (loading (popping item)))
    proceed-Inv spurious (loading side) at =
        kept (loading side) at (reducing side (index_of side s.mem)) s.mem.data_slots
          (reducing-stage side _) refl
    proceed-Inv spurious (reducing side e) at =
        kept (reducing side e) at (swapping side e (index_of side s.mem % s.mem.size))
          s.mem.data_slots (same_stage side e _) (ground (arith, inv.made_for))
    proceed-Inv spurious (swapping side e d) at =
        elim (Bool-cases (not spurious && (index_of side s.mem == e))) [
          | inl equal ↦
              rw (equal, After)
                (store-Facts size nonempty fits inv side e d
                  (move (swapping side e d) at (posting side)))
          | inr changed ↦
              rw (changed, After)
                (kept (swapping side e d) at (loading side) s.mem.data_slots
                  (loading-stage side e d) refl)
        ]
    proceed-Inv spurious (posting pushing) at =
        post_push-Facts size nonempty fits inv (move (posting pushing) at idle)
    proceed-Inv spurious (posting (popping item)) at =
        post_pop-Facts size nonempty fits inv item (move (posting (popping item)) at idle)

    step-Inv : (call : Call A) (p : Pc A) → s.pc i ≡ p → After (Inv n size) s i (step call s.mem p)
    unfolding step
    step-Inv (go spurious) p at = proceed-Inv spurious p at
    step-Inv (push x) idle at = begin-Inv (push x) at
    step-Inv (try_push x) idle at = begin-Inv (try_push x) at
    step-Inv pop idle at = begin-Inv pop at
    step-Inv try_pop idle at = begin-Inv try_pop at
    step-Inv call p at = tt

  start-Inv : Inv n size (initial {A = A} size)
  unfolding make Semaphore.make
  start-Inv = ground (
    arith,
    nonempty,
    fits,
    idle_total 1 (omega arith),
    idle_total 2 (omega arith),
    idle_total 3 (omega arith),
    idle_total 4 (omega arith),
    idle_total 5 (omega arith),
    idle_total 6 (omega arith),
    idle_total 7 (omega arith),
    idle_total 8 (omega arith),
    total-const (too_large {A = A} size) n idle refl,
  )
    where
      idle_total : (k : ℕ) → 0 < k → total (in_stage {A = A} k) n (λ _. idle) ≡ 0
      idle_total k pos = total-const (in_stage {A = A} k) n idle (ground arith)

  Reach-Inv :
      {s : System (LockFreeQueue A) (Pc A)} → Reach step n (initial {A = A} size) s → Inv n size s
  Reach-Inv r =
      Reach-induction step (Inv n size) n (λ u i call p inv lt at. step-Inv u i inv lt call p at)
        start-Inv r

  -- However `n` threads interleave their pushes and pops over a fresh `lock_free_queue` of `size` slots:
  -- both indices, which grow past `size` before they are reduced, stay below twice `size`, and `count_`
  -- stays within `size`, as long as twice `size` fits an unsigned int.
  pub indices_bounded :
      {s : System (LockFreeQueue A) (Pc A)}
      → Reach step n (initial {A = A} size) s
      → (s.mem.push_index < 2 * size) × (s.mem.pop_index < 2 * size) × (s.mem.count ≤ size)
  indices_bounded {s} r = (ground (arith, inv), ground (arith, inv), ground (arith, inv))
    where
      inv : Inv n size s
      inv = Reach-Inv r

  -- Whenever all `n` threads are outside a `lock_free_queue`: `full_slots_` agrees with `count_`,
  -- `open_slots_` counts the other slots, and both indices are reduced.
  settled_counts :
      {s : System (LockFreeQueue A) (Pc A)}
      → Reach step n (initial {A = A} size) s
      → ((i : ℕ) → i < n → s.pc i ≡ idle)
      → (s.mem.full_slots.count ≡ s.mem.count)
        × (s.mem.open_slots.count + s.mem.count ≡ size)
        × (s.mem.push_index < size)
        × (s.mem.pop_index < size)
  settled_counts {s} r outside = ground (
    arith,
    inv,
    nobody 1 (omega arith),
    nobody 2 (omega arith),
    nobody 3 (omega arith),
    nobody 4 (omega arith),
    nobody 5 (omega arith),
    nobody 6 (omega arith),
    nobody 7 (omega arith),
    nobody 8 (omega arith),
  )
    where
      inv : Inv n size s
      inv = Reach-Inv r

      nobody : (k : ℕ) → 0 < k → total (in_stage k) n s.pc ≡ 0
      nobody k pos = total-eq-zero (in_stage k) n s.pc (λ i lt. rw (outside i lt) (ground arith))
