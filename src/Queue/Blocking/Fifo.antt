-- ===== src/Queue/Blocking/Fifo.antt =====
-- The ring of `blocking_queue` (sync/queue.hpp) is a first-in first-out queue.
use native.Mathlib.Nat.{mod-add-mod, mod-eq_of_lt}
use synchronization_library.Prelude.{
  ℕ, zero, suc, ◌+◌, ◌-◌, ◌%◌, ◌^◌, ◌<◌, ◌≡◌, refl, sym, ◌∙◌, ap, arith, Option, none, some, List,
  [], ◌∷◌, ◌++◌, length, get_elem?, set, length-set, length-append, get_elem?-set_self, replicate,
  length-replicate,
}
use synchronization_library.Queue.Slots.{
  next, advance, advance-eq, IsOutside, IsOutside-after, IsOutside-before, IsLive, IsRaw,
  set-IsLive, set-IsRaw, IsLive-append, IsRaw-suc,
}
use synchronization_library.Queue.Blocking.Ring.{
  Ring, make, push_slot, drop_slot, pop_slot, destroy_from, destroy, Holds,
}

-- The step of an index wraps neither at 2 ^ 32 nor out of the ring.
step-eq-next : (size h : ℕ) → size < 2 ^ 32 → h < size → (h + 1) % 2 ^ 32 % size ≡ next size h
step-eq-next size h narrow lt =
    ap (λ t. t % size) (mod-eq_of_lt {n = h + 1} {m = 2 ^ 32} (omega arith))

-- A full round comes back.
mod-add_self : (size h : ℕ) → h < size → (h + size) % size ≡ h
mod-add_self size h lt = grind arith

get_elem?-replicate : {A : Type 0} (n i : ℕ) (a : A) → i < n → get_elem? (replicate n a) i ≡ some a
get_elem?-replicate zero i a lt = absurd (omega arith)
get_elem?-replicate (suc n) zero a lt = refl
get_elem?-replicate (suc n) (suc i) a lt = get_elem?-replicate n i a (omega arith)

replicate-IsRaw :
    (A : Type 0) (size h k : ℕ) → h < size → IsRaw {A = A} size (replicate size none) h k
replicate-IsRaw A size h zero lt = tt
replicate-IsRaw A size h (suc k) lt =
    (get_elem?-replicate size h none lt, replicate-IsRaw A size (next size h) k (omega arith))

-- The constructor makes an empty queue over raw slots.
pub make-Holds : (A : Type 0) (size : ℕ) → 0 < size → size < 2 ^ 32 → Holds {A = A} (make size) []
unfolding make
make-Holds A size pos narrow = record {
  nonempty = pos;
  narrow = narrow;
  storage = length-replicate size none;
  counted = refl;
  within = omega arith;
  pop_in = pos;
  push_at = sym (mod-eq_of_lt {n = 0} {m = size} pos);
  live = tt;
  raw = replicate-IsRaw A size 0 (size - 0) pos;
}

module _ {A : Type 0} where
  module _ {r : Ring A} {xs : List A} (held : Holds r xs) where
    open held use {narrow, storage, pop_in, push_at, live, raw, within}

    push_at_advance : r.push_index ≡ advance r.size r.pop_index (length xs)
    push_at_advance = push_at ∙ sym (advance-eq r.size r.pop_index (length xs) pop_in)

    push_in : r.push_index < r.size
    push_in = omega arith

    module _ (x : A) (room : length xs < r.size) where
      push-IsLive : IsLive r.size (set r.slots r.push_index (some x)) r.pop_index (xs ++ (x ∷ []))
      push-IsLive =
          IsLive-append r.size _ r.pop_index xs x
            (set-IsLive r.size r.slots r.pop_index r.push_index (some x) xs
              (rw push_at_advance (IsOutside-after r.size r.pop_index (length xs) pop_in room))
              live)
            (rw (← push_at_advance)
              (get_elem?-set_self r.slots r.push_index (some x) (omega arith)))

      push-IsRaw :
          (k : ℕ)
          → r.size - length xs ≡ suc k
          → IsRaw r.size (set r.slots r.push_index (some x)) (next r.size r.push_index) k
      push-IsRaw k e =
          set-IsRaw r.size r.slots (next r.size r.push_index) r.push_index (some x) k
            (IsOutside-before r.size r.push_index k push_in (omega arith)) (rest e)
        where
          rest : r.size - length xs ≡ suc k → IsRaw r.size r.slots (next r.size r.push_index) k
          rest q = (rw q at raw).1

      push_at_next : next r.size r.push_index ≡ (r.pop_index + length (xs ++ (x ∷ []))) % r.size
      push_at_next = rw (push_at, length-append, mod-add-mod) (ap (λ t. t % r.size) (omega arith))

      -- A push into a free slot appends its object behind those that the ring holds.
      pub push_slot-Holds : Holds (push_slot r x) (xs ++ (x ∷ []))
      unfolding push_slot
      push_slot-Holds = record {
        nonempty = held.nonempty;
        narrow = narrow;
        storage = length-set r.slots r.push_index (some x) ∙ storage;
        counted = omega (arith, length-append xs (x ∷ []), held.counted);
        within = omega (arith, length-append xs (x ∷ []));
        pop_in = pop_in;
        push_at = step-eq-next r.size r.push_index narrow push_in ∙ push_at_next;
        live = push-IsLive;
        raw =
            rw (step-eq-next r.size r.push_index narrow push_in)
              (push-IsRaw _ (omega (arith, length-append xs (x ∷ []))));
      }

  module _ {r : Ring A} {x : A} {xs : List A} (held : Holds r (x ∷ xs)) where
    open held use {narrow, storage, pop_in, push_at, live, raw, within, counted}

    drop-IsLive : IsLive r.size (set r.slots r.pop_index none) (next r.size r.pop_index) xs
    drop-IsLive =
        set-IsLive r.size r.slots (next r.size r.pop_index) r.pop_index none xs
          (IsOutside-before r.size r.pop_index (length xs) pop_in (omega arith)) live.1

    -- The slots from the first raw one on come back to the object that is popped.
    raw_reaches : advance r.size r.push_index (r.size - suc (length xs)) ≡ r.pop_index
    raw_reaches =
        advance-eq r.size r.push_index _ (push_in held)
        ∙ rw (push_at, mod-add-mod)
            (ap (λ t. t % r.size) (omega arith) ∙ mod-add_self r.size r.pop_index pop_in)

    raw-IsOutside : IsOutside r.size r.push_index (r.size - suc (length xs)) r.pop_index
    raw-IsOutside = rw raw_reaches at (
        IsOutside-after r.size r.push_index (r.size - suc (length xs)) (push_in held) (omega arith))

    drop-IsRaw : IsRaw r.size (set r.slots r.pop_index none) r.push_index (r.size - length xs)
    drop-IsRaw =
        let one_more : r.size - length xs ≡ suc (r.size - suc (length xs)) = omega arith in
        rw one_more (
          IsRaw-suc r.size _ r.push_index (r.size - suc (length xs))
            (set-IsRaw r.size r.slots r.push_index r.pop_index none _ raw-IsOutside raw)
            (rw raw_reaches (get_elem?-set_self r.slots r.pop_index none (omega arith))))

    pop_at : r.push_index ≡ (next r.size r.pop_index + length xs) % r.size
    pop_at = push_at ∙ rw mod-add-mod (ap (λ t. t % r.size) (omega arith))

    drop_slot-Holds : Holds (drop_slot r) xs
    unfolding drop_slot
    drop_slot-Holds = record {
      nonempty = held.nonempty;
      narrow = narrow;
      storage = length-set r.slots r.pop_index none ∙ storage;
      counted = omega arith;
      within = omega arith;
      pop_in = omega arith;
      push_at = rw (step-eq-next r.size r.pop_index narrow pop_in) pop_at;
      live = rw (step-eq-next r.size r.pop_index narrow pop_in) drop-IsLive;
      raw = drop-IsRaw;
    }

    -- A pop takes the oldest object out, and leaves the ring with the others.
    pub pop_slot-Holds : (pop_slot r ≡ some (x, drop_slot r)) × Holds (drop_slot r) xs
    unfolding pop_slot
    pop_slot-Holds = (rw (live.0, pop_slot), drop_slot-Holds)

  destroy_from-Holds :
      (r : Ring A) (xs : List A)
      → Holds r xs
      → (slots : List (Option A)) × (destroy_from r.size (length xs) r.slots r.pop_index
          ≡ some (xs, slots))
        × IsRaw r.size slots r.push_index r.size
  unfolding destroy_from drop_slot
  destroy_from-Holds r [] held =
      let all : r.size - 0 ≡ r.size = omega arith in (r.slots, refl, rw all at (held.raw))
  destroy_from-Holds r (x ∷ xs) held =
      let (slots, ended, raw) = destroy_from-Holds (drop_slot r) xs (drop_slot-Holds held) in
      (slots, rw (held.live.0, destroy_from, ended), raw)

  -- The destructor destroys the objects that the ring holds, each once and oldest first, and gives
  -- back storage in which every slot is raw.
  destroy-Holds :
      (r : Ring A) (xs : List A)
      → Holds r xs
      → (slots : List (Option A)) × (destroy r ≡ some (xs, slots))
        × IsRaw r.size slots r.push_index r.size
  unfolding destroy
  destroy-Holds r xs held = rw held.counted (destroy_from-Holds r xs held)
