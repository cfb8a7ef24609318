-- ===== src/Queue/Blocking/Ring.antt =====
-- The fields of `blocking_queue` (sync/queue.hpp) that `mutex_` guards, and its critical sections.
use synchronization_library.Prelude.{
  ℕ, zero, suc, ◌+◌, ◌-◌, ◌%◌, ◌^◌, ◌≤◌, ◌<◌, ◌≡◌, Bool, Option, none, some, List, [], ◌∷◌, length,
  get_elem?, set, ◌==◌, replicate,
}
use synchronization_library.Queue.Slots.{IsLive, IsRaw}

-- `data_`, `size_`, `push_index_`, `pop_index_`, `count_`; the numbers are unsigned ints.
pub record Ring (A : Type 0) : Type 0 where
  pub slots : List (Option A)
  pub size : ℕ
  pub push_index : ℕ
  pub pop_index : ℕ
  pub count : ℕ

module _ {A : Type 0} where
  -- The constructor: `size` raw slots from the allocator.
  unfoldable pub make : ℕ → Ring A
  make size = record {
    slots = replicate size none;
    size = size;
    push_index = 0;
    pop_index = 0;
    count = 0;
  }

  -- The critical section of `push` and `try_push`.
  unfoldable pub push_slot : Ring A → A → Ring A
  push_slot r x = record r {
    slots = set r.slots r.push_index (some x);
    push_index = (r.push_index + 1) % 2 ^ 32 % r.size;
    count = (r.count + 1) % 2 ^ 32;
  }

  -- What `pop` does once it has moved the object out: destroy it and step on.
  unfoldable pub drop_slot : Ring A → Ring A
  drop_slot r = record r {
    slots = set r.slots r.pop_index none;
    pop_index = (r.pop_index + 1) % 2 ^ 32 % r.size;
    count = (r.count + 2 ^ 32 - 1) % 2 ^ 32;
  }

  -- The critical section of `pop` and `try_pop`. `none` is a read of memory with no object in it.
  unfoldable pub pop_slot : Ring A → Option (A × Ring A)
  pop_slot r = elim (get_elem? r.slots r.pop_index) [
    | some (some x) ↦ some (x, drop_slot r)
    | _ ↦ none
  ]

  -- The loop of the destructor, with `count_` as the rounds left: the objects destroyed, in order,
  -- and the slots that go back to the allocator. `none` is a destructor call on raw memory.
  unfoldable pub destroy_from : ℕ → ℕ → List (Option A) → ℕ → Option (List A × List (Option A))
  destroy_from size zero slots index = some ([], slots)
  destroy_from size (suc count) slots index =
      let rest = destroy_from size count (set slots index none) ((index + 1) % 2 ^ 32 % size) in
      elim (get_elem? slots index) [
        | some (some x) ↦ elim rest [ none ↦ none | some (xs, slots') ↦ some (x ∷ xs, slots') ]
        | _ ↦ none
      ]

  unfoldable pub destroy : Ring A → Option (List A × List (Option A))
  unfolding destroy_from
  destroy r = destroy_from r.size r.count r.slots r.pop_index

  unfoldable pub empty : Ring A → Bool
  empty r = r.count == 0

  unfoldable pub full : Ring A → Bool
  full r = r.count == r.size

  -- The ring holds the objects `xs`, oldest first, and every other slot is raw.
  pub record Holds (r : Ring A) (xs : List A) : Type 0 where
    pub nonempty : 0 < r.size
    pub narrow : r.size < 2 ^ 32
    pub storage : length r.slots ≡ r.size
    pub counted : r.count ≡ length xs
    pub within : length xs ≤ r.size
    pub pop_in : r.pop_index < r.size
    pub push_at : r.push_index ≡ (r.pop_index + length xs) % r.size
    pub live : IsLive r.size r.slots r.pop_index xs
    pub raw : IsRaw r.size r.slots r.push_index (r.size - length xs)
