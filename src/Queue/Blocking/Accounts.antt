-- ===== src/Queue/Blocking/Accounts.antt =====
-- The invariant of `blocking_queue` (sync/queue.hpp) under interleaved threads: the two semaphores
-- and the threads between them account for every slot.
use mathlib.Core.Path.{subst}
use mathlib.Core.List.{append_assoc}
use synchronization_library.Prelude.{
  ℕ, ◌+◌, ◌-◌, ◌≤◌, ◌<◌, ◌≡◌, refl, sym, ◌∙◌, ap, arith, false, some, List, [], ◌∷◌, ◌++◌, length,
  length-append, Bool-cases, inl, inr, ◌==◌,
}
use synchronization_library.Threads.{System, After, update, total, total-update, weight-le-total}
use synchronization_library.Queue.Blocking.Ring.{Holds, push_slot, drop_slot}
use synchronization_library.Queue.Blocking.Fifo.{push_slot-Holds, pop_slot-Holds}
use synchronization_library.Queue.Blocking.Run.{
  BlockingQueue, Pc, idle, pushing, push_done, popping, pop_done, fault, Call, push, try_push, pop,
  try_pop, go, begin, proceed, step,
}

module _ {A : Type 0} where
  -- Threads that have reserved a free slot and not yet filled it.
  abbrev pub is_pushing : Pc A → ℕ
  is_pushing (pushing x) = 1
  is_pushing _ = 0

  -- Threads that have filled a slot and not yet told the consumers.
  abbrev pub is_push_done : Pc A → ℕ
  is_push_done push_done = 1
  is_push_done _ = 0

  abbrev pub is_popping : Pc A → ℕ
  is_popping popping = 1
  is_popping _ = 0

  abbrev pub is_pop_done : Pc A → ℕ
  is_pop_done pop_done = 1
  is_pop_done _ = 0

  abbrev pub is_fault : Pc A → ℕ
  is_fault fault = 1
  is_fault _ = 0

  -- The account of `n` threads over a queue of `size` slots.
  pub record Inv (n size : ℕ) (s : System (BlockingQueue A) (Pc A)) : Type 0 where
    pub contents : List A
    pub held : Holds s.mem.ring contents
    pub sized : s.mem.ring.size ≡ size
    pub order : s.mem.pushed ≡ s.mem.popped ++ contents
    pub open_account :
        s.mem.open_slots.count
          + total is_pushing n s.pc
          + length contents
          + total is_pop_done n s.pc
        ≡ size
    pub full_account :
        s.mem.full_slots.count + total is_popping n s.pc + total is_push_done n s.pc
        ≡ length contents
    pub no_fault : total is_fault n s.pc ≡ 0

  -- The sums after thread `i` goes from `p` to `p'`.
  pub record Moved (n : ℕ) (pc : ℕ → Pc A) (i : ℕ) (p p' : Pc A) : Type 0 where
    pub pushers :
        total is_pushing n (update pc i p') + is_pushing p ≡ total is_pushing n pc + is_pushing p'
    pub push_posters :
        total is_push_done n (update pc i p') + is_push_done p
        ≡ total is_push_done n pc + is_push_done p'
    pub poppers :
        total is_popping n (update pc i p') + is_popping p ≡ total is_popping n pc + is_popping p'
    pub pop_posters :
        total is_pop_done n (update pc i p') + is_pop_done p
        ≡ total is_pop_done n pc + is_pop_done p'
    pub faults : total is_fault n (update pc i p') + is_fault p ≡ total is_fault n pc + is_fault p'
    pub a_pusher : is_pushing p ≤ total is_pushing n pc
    pub a_popper : is_popping p ≤ total is_popping n pc
    pub a_fault : is_fault p ≤ total is_fault n pc

  pub moved :
      (n : ℕ) (pc : ℕ → Pc A) (i : ℕ) (p : Pc A)
      → i < n
      → pc i ≡ p
      → (p' : Pc A) → Moved n pc i p p'
  moved n pc i p lt at p' = rw (← at) (record {
    pushers = total-update is_pushing n pc i p' lt;
    push_posters = total-update is_push_done n pc i p' lt;
    poppers = total-update is_popping n pc i p' lt;
    pop_posters = total-update is_pop_done n pc i p' lt;
    faults = total-update is_fault n pc i p' lt;
    a_pusher = weight-le-total is_pushing n pc i lt;
    a_popper = weight-le-total is_popping n pc i lt;
    a_fault = weight-le-total is_fault n pc i lt;
  })

  -- A thread that holds a claim finds an object in the ring.
  claimed : (xs : List A) → 0 < length xs → (x : A) × (ys : List A) × (xs ≡ x ∷ ys)
  claimed [] lt = absurd (omega arith)
  claimed (x ∷ ys) lt = (x, ys, refl)

  module _ (n size : ℕ) (s : System (BlockingQueue A) (Pc A)) (i : ℕ) (inv : Inv n size s) where
    open inv use {contents, held, sized, order, open_account, full_account, no_fault}

    -- The states that the start of a method can lead to.
    reserved :
        (x : A)
        → ((p' : Pc A) → Moved n s.pc i idle p')
        → (s.mem.open_slots.count == 0) ≡ false
        → After (Inv n size) s i (
            some (
              record s.mem { open_slots = record { count = s.mem.open_slots.count - 1 } },
              pushing x,
            ))
    reserved x mv some_left =
        let f = mv (pushing x) in
        record {
          contents = contents;
          held = held;
          sized = sized;
          order = order;
          open_account = ground arith;
          full_account = omega arith;
          no_fault = omega arith;
        }

    claimed_one :
        ((p' : Pc A) → Moved n s.pc i idle p')
        → (s.mem.full_slots.count == 0) ≡ false
        → After (Inv n size) s i (
            some (
              record s.mem { full_slots = record { count = s.mem.full_slots.count - 1 } },
              popping,
            ))
    claimed_one mv some_left =
        let f = mv popping in
        record {
          contents = contents;
          held = held;
          sized = sized;
          order = order;
          open_account = omega arith;
          full_account = ground arith;
          no_fault = omega arith;
        }

    refused : ((p' : Pc A) → Moved n s.pc i idle p') → After (Inv n size) s i (some (s.mem, idle))
    refused mv =
        let f = mv idle in
        record {
          contents = contents;
          held = held;
          sized = sized;
          order = order;
          open_account = omega arith;
          full_account = omega arith;
          no_fault = omega arith;
        }

    begin-Inv :
        (call : Call A)
        → ((p' : Pc A) → Moved n s.pc i idle p')
        → After (Inv n size) s i (begin call s.mem)
    unfolding begin
    begin-Inv (push x) mv = elim (Bool-cases (s.mem.open_slots.count == 0)) [
      | inl none_left ↦ rw (none_left, After) tt
      | inr some_left ↦ rw (some_left, After) (reserved x mv some_left)
    ]
    begin-Inv (try_push x) mv = elim (Bool-cases (s.mem.open_slots.count == 0)) [
      | inl none_left ↦ rw (none_left, After) (refused mv)
      | inr some_left ↦ rw (some_left, After) (reserved x mv some_left)
    ]
    begin-Inv pop mv = elim (Bool-cases (s.mem.full_slots.count == 0)) [
      | inl none_left ↦ rw (none_left, After) tt
      | inr some_left ↦ rw (some_left, After) (claimed_one mv some_left)
    ]
    begin-Inv try_pop mv = elim (Bool-cases (s.mem.full_slots.count == 0)) [
      | inl none_left ↦ rw (none_left, After) (refused mv)
      | inr some_left ↦ rw (some_left, After) (claimed_one mv some_left)
    ]
    begin-Inv go mv = tt

    proceed-Inv :
        (p : Pc A) → ((p' : Pc A) → Moved n s.pc i p p') → After (Inv n size) s i (proceed s.mem p)
    unfolding proceed
    proceed-Inv idle mv = tt
    proceed-Inv (pushing x) mv =
        let f = mv push_done in
        record {
          contents = contents ++ (x ∷ []);
          held = push_slot-Holds held x (omega arith);
          sized = unfold push_slot in sized;
          order = rw order (append_assoc s.mem.popped contents (x ∷ []));
          open_account = omega (arith, length-append contents (x ∷ []));
          full_account = omega (arith, length-append contents (x ∷ []));
          no_fault = omega arith;
        }
    proceed-Inv push_done mv =
        let f = mv idle in
        record {
          contents = contents;
          held = held;
          sized = sized;
          order = order;
          open_account = omega arith;
          full_account = omega (arith, held.within, held.narrow);
          no_fault = omega arith;
        }
    proceed-Inv popping mv =
        let f = mv pop_done in
        let (x, ys, split) = claimed contents (omega arith) in
        let front = pop_slot-Holds (subst (Holds s.mem.ring) split held) in
        rw (front.0, After)
          (record {
            contents = ys;
            held = front.1;
            sized = unfold drop_slot in sized;
            order =
                order
                ∙ ap (λ t. s.mem.popped ++ t) split
                ∙ sym (append_assoc s.mem.popped (x ∷ []) ys);
            open_account = omega (arith, ap length split);
            full_account = omega (arith, ap length split);
            no_fault = omega arith;
          })
    proceed-Inv pop_done mv =
        let f = mv idle in
        record {
          contents = contents;
          held = held;
          sized = sized;
          order = order;
          open_account = omega (arith, held.within, held.narrow);
          full_account = omega arith;
          no_fault = omega arith;
        }
    proceed-Inv fault mv = tt

  pub step-Inv :
      (n size : ℕ) (s : System (BlockingQueue A) (Pc A)) (i : ℕ) (call : Call A) (p : Pc A)
      → Inv n size s
      → i < n
      → s.pc i ≡ p
      → After (Inv n size) s i (step call s.mem p)
  unfolding step
  step-Inv n size s i go p inv lt at = proceed-Inv n size s i inv p (moved n s.pc i p lt at)
  step-Inv n size s i (push x) idle inv lt at =
      begin-Inv n size s i inv (push x) (moved n s.pc i idle lt at)
  step-Inv n size s i (try_push x) idle inv lt at =
      begin-Inv n size s i inv (try_push x) (moved n s.pc i idle lt at)
  step-Inv n size s i pop idle inv lt at = begin-Inv n size s i inv pop (moved n s.pc i idle lt at)
  step-Inv n size s i try_pop idle inv lt at =
      begin-Inv n size s i inv try_pop (moved n s.pc i idle lt at)
  step-Inv n size s i call p inv lt at = tt
