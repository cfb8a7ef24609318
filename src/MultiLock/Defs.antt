-- ===== src/MultiLock/Defs.antt =====
-- stdlib/mutex.hpp: `try_lock`, `lock`, `_lock_first` and `_unlock` over two and more mutexes. A mutex
-- is a number. What other threads do is in `free`: whether a `try_lock` on a mutex succeeds at the time
-- when it is made. A call gives the locks and unlocks that it makes, in order.
use synchronization_library.Prelude.{
  ℕ, zero, suc, ◌+◌, Bool, Option, none, some, List, [], ◌∷◌, ◌++◌, length, ◌==◌, if◌then◌else◌,
}

pub data Event : Type 0 where
  locked : ℕ → Event
  unlocked : ℕ → Event

abbrev pub remove : ℕ → List ℕ → List ℕ
remove m [] = []
remove m (h ∷ held) = if h == m then held else h ∷ remove m held

-- The mutexes held after the events, the last one locked first.
abbrev pub replay : List Event → List ℕ → List ℕ
replay [] held = held
replay (locked m ∷ events) held = replay events (m ∷ held)
replay (unlocked m ∷ events) held = replay events (remove m held)

-- The int that `try_lock` returns: -1, or the place of the mutex that failed.
pub data TryResult : Type 0 where
  all_locked : TryResult
  failed : ℕ → TryResult

-- `lock.release()` keeps m0 locked; without it the destructor of `lock` unlocks m0. The place counts
-- from m0 on.
abbrev pub under_lock : ℕ → TryResult × List Event → TryResult × List Event
under_lock m0 (all_locked, events) = (all_locked, locked m0 ∷ events)
under_lock m0 (failed i, events) = (failed (i + 1), locked m0 ∷ (events ++ (unlocked m0 ∷ [])))

-- `try_lock` of two mutexes, and of three and more. The source has it for no shorter list.
unfoldable pub try_lock : (ℕ → Bool) → List ℕ → TryResult × List Event
try_lock free [] = (all_locked, [])
try_lock free (m0 ∷ []) = (all_locked, [])
try_lock free (m0 ∷ m1 ∷ []) =
    if free m0
    then (if free m1
        then (all_locked, locked m0 ∷ locked m1 ∷ [])
        else (failed 1, locked m0 ∷ unlocked m0 ∷ []))
    else (failed 0, [])
try_lock free (m0 ∷ m1 ∷ m2 ∷ mn) =
    let rest = under_lock m0 (try_lock free (m1 ∷ m2 ∷ mn)) in
    if free m0 then rest else (failed 0, [])

-- The calls that are left after the events.
abbrev pub after : List Event → Option (List Event) → Option (List Event)
after events none = none
after events (some later) = some (events ++ later)

-- One round of `_lock_first`: m is locked first, waiting as long as it takes, and then the others are
-- tried. `again` goes on from the place that failed among the others.
abbrev pub round : ℕ → TryResult × List Event → (ℕ → Option (List Event)) → Option (List Event)
round m (all_locked, events) again = some (locked m ∷ events)
round m (failed i, events) again = after (locked m ∷ (events ++ (unlocked m ∷ []))) (again i)

-- `_lock_first` of three and more mutexes; the list has one `free` for each round, and `none` says that
-- the rounds ran out.
unfoldable pub lock_first : List (ℕ → Bool) → ℕ → List ℕ → Option (List Event)
lock_first (free ∷ rounds) zero (m0 ∷ m1 ∷ m2 ∷ mn) =
    round m0 (try_lock free (m1 ∷ m2 ∷ mn)) (λ i. lock_first rounds (i + 1) (m0 ∷ m1 ∷ m2 ∷ mn))
lock_first (free ∷ rounds) (suc zero) (m0 ∷ m1 ∷ m2 ∷ mn) =
    round m1 (try_lock free (m2 ∷ (mn ++ (m0 ∷ []))))
      (λ i. lock_first rounds (if i == length mn + 1 then 0 else i + 2) (m0 ∷ m1 ∷ m2 ∷ mn))
lock_first (free ∷ rounds) (suc (suc i)) (m0 ∷ m1 ∷ m2 ∷ mn) =
    lock_first (free ∷ rounds) i (m2 ∷ (mn ++ (m0 ∷ m1 ∷ [])))
lock_first _ _ _ = none

-- `lock` of two mutexes: the round with the one first, then with the other, in turn.
unfoldable pub lock_two : List (ℕ → Bool) → ℕ → ℕ → Option (List Event)
lock_two [] m0 m1 = none
lock_two (free ∷ rounds) m0 m1 =
    let rest = after (locked m0 ∷ unlocked m0 ∷ []) (lock_two rounds m1 m0) in
    if free m1 then some (locked m0 ∷ locked m1 ∷ []) else rest

-- `lock` of two and more.
unfoldable pub lock : List (ℕ → Bool) → List ℕ → Option (List Event)
lock rounds [] = none
lock rounds (m0 ∷ []) = none
lock rounds (m0 ∷ m1 ∷ []) = lock_two rounds m0 m1
lock rounds (m0 ∷ m1 ∷ m2 ∷ mn) = lock_first rounds 0 (m0 ∷ m1 ∷ m2 ∷ mn)

-- `_unlock` of one, two, and three and more.
unfoldable pub unlock : List ℕ → List Event
unlock [] = []
unlock (m0 ∷ []) = unlocked m0 ∷ []
unlock (m0 ∷ m1 ∷ ms) = unlocked m0 ∷ unlocked m1 ∷ unlock ms
