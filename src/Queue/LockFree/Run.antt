-- ===== src/Queue/LockFree/Run.antt =====
-- sync/queue.hpp, class `lock_free_queue`, one atomic access or one use of a slot at a time.
-- The Semaphore of its template is the class `semaphore`.
use synchronization_library.Prelude.{
  ℕ, zero, suc, ◌+◌, ◌-◌, ◌%◌, ◌^◌, Bool, true, false, not, ◌&&◌, Option, none, some, ◌==◌,
  if◌then◌else◌, List, [], ◌∷◌,
}
use synchronization_library.Semaphore
use synchronization_library.Semaphore.{Semaphore}
use synchronization_library.Threads.{System, update}

-- A slot with no object in it is `none`.
pub record LockFreeQueue (A : Type 0) : Type 0 where
  pub open_slots : Semaphore
  pub full_slots : Semaphore
  pub data_slots : ℕ → Option A
  pub push_index : ℕ
  pub pop_index : ℕ
  pub count : ℕ
  pub size : ℕ

-- Whether a thread pushes or pops; what it pops is `none` where it found no object.
pub data Side (A : Type 0) : Type 0 where
  pushing : Side A
  popping : (item : Option A) → Side A

-- Where a thread stands.
pub data Pc (A : Type 0) : Type 0 where
  idle : Pc A
  push_admitted : A → Pc A  -- has waited on `open_slots_`
  constructing : A → (index : ℕ) → Pc A
  pop_admitted : Pc A  -- has waited on `full_slots_`
  moving : (index : ℕ) → Pc A  -- before it moves the object out
  destroying : (index : ℕ) (item : Option A) → Pc A
  counting : Side A → Pc A  -- before it changes `count_`
  loading : Side A → Pc A  -- before it loads `expected`
  reducing : Side A → (expected : ℕ) → Pc A  -- before it loads the index again
  swapping : Side A → (expected reduced : ℕ) → Pc A  -- before the compare-exchange
  posting : Side A → Pc A

pub data Call (A : Type 0) : Type 0 where
  push try_push : A → Call A
  pop try_pop : Call A
  go : (spurious : Bool) → Call A  -- the next step; a weak compare-exchange may fail for no reason

abbrev pub add_one : ℕ → ℕ
add_one x = (x + 1) % 2 ^ 32

abbrev pub sub_one : ℕ → ℕ
sub_one x = (x + 2 ^ 32 - 1) % 2 ^ 32

-- The loop of the destructor over `count_`: the slots that it destroys, oldest first.
abbrev pub destroyed_from : (size index count : ℕ) → List ℕ
destroyed_from size index zero = []
destroyed_from size index (suc n) = index ∷ destroyed_from size (add_one index % size) n

module _ {A : Type 0} where
  unfoldable pub make : ℕ → LockFreeQueue A
  unfolding Semaphore.make
  make size = record {
    open_slots = Semaphore.make size;
    full_slots = Semaphore.make 0;
    data_slots = λ _. none;
    push_index = 0;
    pop_index = 0;
    count = 0;
    size = size;
  }

  -- The index that a side has to itself.
  abbrev pub index_of : Side A → LockFreeQueue A → ℕ
  index_of pushing q = q.push_index
  index_of (popping item) q = q.pop_index

  abbrev pub set_index : Side A → ℕ → LockFreeQueue A → LockFreeQueue A
  set_index pushing x q = record q { push_index = x }
  set_index (popping item) x q = record q { pop_index = x }

  -- The start of a method. `wait_for` at zero seconds has always expired.
  unfoldable pub begin : Call A → LockFreeQueue A → Option (LockFreeQueue A × Pc A)
  unfolding Semaphore.wait Semaphore.wait_for
  begin (push x) q = elim (Semaphore.wait q.open_slots) [
    | none ↦ none
    | some s ↦ some (record q { open_slots = s }, push_admitted x)
  ]
  begin (try_push x) q = elim (Semaphore.wait_for true q.open_slots) [
    | none ↦ none
    | some (false, s) ↦ some (record q { open_slots = s }, idle)
    | some (true, s) ↦ some (record q { open_slots = s }, push_admitted x)
  ]
  begin pop q = elim (Semaphore.wait q.full_slots) [
    | none ↦ none
    | some s ↦ some (record q { full_slots = s }, pop_admitted)
  ]
  begin try_pop q = elim (Semaphore.wait_for true q.full_slots) [
    | none ↦ none
    | some (false, s) ↦ some (record q { full_slots = s }, idle)
    | some (true, s) ↦ some (record q { full_slots = s }, pop_admitted)
  ]
  begin (go spurious) q = none

  -- The rest, up to the post.
  unfoldable pub proceed : Bool → LockFreeQueue A → Pc A → Option (LockFreeQueue A × Pc A)
  unfolding Semaphore.post
  proceed spurious q idle = none
  proceed spurious q (push_admitted x) =
      some (record q { push_index = add_one q.push_index }, constructing x q.push_index)
  proceed spurious q (constructing x index) =
      some
        (record q { data_slots = update q.data_slots (index % q.size) (some x) }, counting pushing)
  proceed spurious q pop_admitted =
      some (record q { pop_index = add_one q.pop_index }, moving q.pop_index)
  proceed spurious q (moving index) = some (q, destroying index (q.data_slots (index % q.size)))
  proceed spurious q (destroying index item) =
      some (
        record q { data_slots = update q.data_slots (index % q.size) none },
        counting (popping item),
      )
  proceed spurious q (counting pushing) =
      some (record q { count = add_one q.count }, loading pushing)
  proceed spurious q (counting (popping item)) =
      some (record q { count = sub_one q.count }, loading (popping item))
  proceed spurious q (loading side) = some (q, reducing side (index_of side q))
  proceed spurious q (reducing side expected) =
      some (q, swapping side expected (index_of side q % q.size))
  proceed spurious q (swapping side expected reduced) =
      if not spurious && (index_of side q == expected)
      then some (set_index side reduced q, posting side)
      else some (q, loading side)
  proceed spurious q (posting pushing) =
      some (record q { full_slots = Semaphore.post q.full_slots }, idle)
  proceed spurious q (posting (popping item)) =
      some (record q { open_slots = Semaphore.post q.open_slots }, idle)

  -- One step of one thread.
  unfoldable pub step : Call A → LockFreeQueue A → Pc A → Option (LockFreeQueue A × Pc A)
  unfolding begin proceed
  step (go spurious) q p = proceed spurious q p
  step call q idle = begin call q
  step call q p = none

  abbrev pub initial : ℕ → System (LockFreeQueue A) (Pc A)
  initial size = record { mem = make size; pc = λ _. idle }

  pub empty : LockFreeQueue A → Bool
  empty q = q.count == 0

  pub full : LockFreeQueue A → Bool
  full q = q.count == q.size

  abbrev pub destroy : LockFreeQueue A → List ℕ
  destroy q = destroyed_from q.size q.pop_index q.count
