-- ===== src/Queue/Blocking/Safety.antt =====
-- What holds of `blocking_queue` (sync/queue.hpp) however its threads interleave: the semaphores
-- account for every slot, and the objects leave in the order in which they came.
use synchronization_library.Prelude.{
  ℕ, zero, suc, ◌+◌, ◌-◌, ◌^◌, ◌≤◌, ◌<◌, ◌≡◌, ◌≢◌, refl, ◌∙◌, ap, arith, none, some, List, [], ◌++◌,
  length, length-append, get_elem?,
}
use synchronization_library.Threads.{
  System, Reach, Reach-induction, total, total-const, total-eq-zero,
}
use synchronization_library.Queue.Blocking.Ring
use synchronization_library.Queue.Blocking.Ring.{Ring, Holds, push_slot, pop_slot, drop_slot}
use synchronization_library.Queue.Slots.{IsRaw}
use synchronization_library.Queue.Blocking.Fifo.{make-Holds}
use synchronization_library.Queue.Blocking.Run.{
  BlockingQueue, Pc, idle, pushing, fault, make, step, initial,
}
use synchronization_library.Queue.Blocking.Accounts.{
  is_pushing, is_push_done, is_popping, is_pop_done, is_fault, Inv, moved, step-Inv,
}

initial-Inv :
    (A : Type 0) (n size : ℕ) → 0 < size → size < 2 ^ 32 → Inv {A = A} n size (initial size)
unfolding make Ring.make
initial-Inv A n size pos narrow = record {
  contents = [];
  held = make-Holds A size pos narrow;
  sized = refl;
  order = refl;
  open_account = omega (
    arith,
    total-const (is_pushing {A = A}) n idle refl,
    total-const (is_pop_done {A = A}) n idle refl,
  );
  full_account = omega (
    arith,
    total-const (is_popping {A = A}) n idle refl,
    total-const (is_push_done {A = A}) n idle refl,
  );
  no_fault = total-const (is_fault {A = A}) n idle refl;
}

module _ {A : Type 0} where
  Reach-Inv :
      (n size : ℕ) {s : System (BlockingQueue A) (Pc A)}
      → 0 < size
      → size < 2 ^ 32
      → Reach step n (initial size) s
      → Inv n size s
  Reach-Inv n size pos narrow r =
      Reach-induction step (Inv n size) n (step-Inv n size) (initial-Inv A n size pos narrow) r

  -- However `n` threads interleave their pushes and pops over a fresh queue of `size` slots: the ring
  -- holds a list of at most `size` objects, and the objects pushed are the objects popped followed by
  -- those, in the same order. So none is lost, doubled or overtaken.
  pub fifo_order :
      (n size : ℕ) {s : System (BlockingQueue A) (Pc A)}
      → 0 < size
      → size < 2 ^ 32
      → Reach step n (initial size) s
      → (xs : List A) × Holds s.mem.ring xs
        × (s.mem.pushed ≡ s.mem.popped ++ xs)
        × (length xs ≤ size)
  fifo_order n size pos narrow r = (contents, held, order, omega (arith, held.within, sized))
    where
      open (Reach-Inv n size pos narrow r) use {contents, held, sized, order}

  -- However `n` threads interleave over a fresh queue: no thread has read a slot with no object in it,
  -- and a thread that has waited on `open_slots_` finds the slot that it fills raw, so that a push
  -- never overwrites an object.
  pub slot_safety :
      (n size : ℕ) {s : System (BlockingQueue A) (Pc A)}
      → 0 < size
      → size < 2 ^ 32
      → Reach step n (initial size) s
      → (i : ℕ) → i < n
      → (s.pc i ≢ fault)
        × ((x : A)
            → s.pc i ≡ pushing x
            → get_elem? s.mem.ring.slots s.mem.ring.push_index ≡ some none)
  slot_safety n size {s} pos narrow r i lt = (
    λ at. absurd (omega (arith, (moved n s.pc i fault lt at fault).a_fault, no_fault)),
    λ x at.
        raw_front (s.mem.ring.size - length contents)
          (omega (arith, (moved n s.pc i (pushing x) lt at idle).a_pusher, open_account, sized))
          held.raw,
  )
    where
      open (Reach-Inv n size pos narrow r) use {contents, held, sized, open_account, no_fault}

      raw_front :
          (k : ℕ)
          → 0 < k
          → IsRaw s.mem.ring.size s.mem.ring.slots s.mem.ring.push_index k
          → get_elem? s.mem.ring.slots s.mem.ring.push_index ≡ some none
      raw_front zero p raw = absurd (omega arith)
      raw_front (suc k) p raw = raw.0

  -- Whenever all `n` threads are outside the queue, `full_slots_` counts the objects in the ring,
  -- `open_slots_` counts the free slots, and `count_` is the number of objects.
  quiet_counts :
      (n size : ℕ) {s : System (BlockingQueue A) (Pc A)}
      → 0 < size
      → size < 2 ^ 32
      → Reach step n (initial size) s
      → ((i : ℕ) → i < n → s.pc i ≡ idle)
      → (s.mem.full_slots.count ≡ s.mem.ring.count)
        × (s.mem.open_slots.count + s.mem.ring.count ≡ size)
        × (length s.mem.pushed ≡ length s.mem.popped + s.mem.ring.count)
  quiet_counts n size {s} pos narrow r quiet = (
    omega (arith, none_at is_popping refl, none_at is_push_done refl, held.counted, full_account),
    omega (arith, none_at is_pushing refl, none_at is_pop_done refl, held.counted, open_account),
    ap length order ∙ omega (arith, length-append s.mem.popped contents, held.counted),
  )
    where
      open (Reach-Inv n size pos narrow r) use {contents, held, order, open_account, full_account}

      none_at : (w : Pc A → ℕ) → w idle ≡ 0 → total w n s.pc ≡ 0
      none_at w z = total-eq-zero w n s.pc (λ i lt. rw (quiet i lt) z)
