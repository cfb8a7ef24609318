-- ===== src/Tests/MultiLock.antt =====
-- `lock`, `try_lock` and `_unlock` of several mutexes (stdlib/mutex.hpp) at concrete inputs.
use synchronization_library.Prelude.{
  ℕ, ◌≡◌, refl, Bool, true, not, some, List, [], ◌∷◌, ◌++◌, inl, inr, ◌==◌,
}
use synchronization_library.MultiLock.Defs.{
  Event, locked, unlocked, failed, replay, try_lock, lock_first, lock,
}
use synchronization_library.MultiLock.TryLock.{Outcome, try_lock-Outcome}
use synchronization_library.MultiLock.Lock.{count}
use synchronization_library.MultiLock.Guards.{
  Guard, lock_guard, adopt_guard, scoped_lock, construct, enter, leave, guards-balance,
}
use synchronization_library.MultiLock.Progress.{Returns, lock-Returns}

abbrev three : List ℕ
three = 10 ∷ 11 ∷ 12 ∷ []

-- Mutex 12 is held by another thread in the first round, and free in the second.
abbrev rounds : List (ℕ → Bool)
rounds = (λ m. not (m == 12)) ∷ (λ m. true) ∷ []

abbrev events : List Event
events = locked 10 ∷ locked 11 ∷ unlocked 11 ∷ unlocked 10 ∷ locked 12 ∷ locked 10 ∷ locked 11 ∷ []

try_lock_backs_off :
    try_lock (λ m. not (m == 12)) three
    ≡ (failed 2, locked 10 ∷ locked 11 ∷ unlocked 11 ∷ unlocked 10 ∷ [])
unfolding try_lock
try_lock_backs_off = refl

lock_goes_round : lock rounds three ≡ some events
unfolding lock lock_first try_lock
lock_goes_round = refl

try_lock-Outcome_example : Outcome (λ m. not (m == 12)) three (try_lock (λ m. not (m == 12)) three)
try_lock-Outcome_example = try_lock-Outcome (λ m. not (m == 12)) 10 11 (12 ∷ [])

-- The second guard adopts mutex 9, which the thread holds.
abbrev guards : List Guard
guards = lock_guard 7 ∷ adopt_guard 9 ∷ scoped_lock rounds three ∷ scoped_lock [] [] ∷ []

block_enters : enter guards ≡ some (locked 7 ∷ events)
unfolding enter construct lock lock_first try_lock
block_enters = refl

guards-balance_example :
    (count 12 (replay (locked 7 ∷ events) (9 ∷ [])) ≡ 1)
    × (count 12 (replay ((locked 7 ∷ events) ++ ([] ++ leave guards)) (9 ∷ [])) ≡ 0)
guards-balance_example =
    guards-balance guards (locked 7 ∷ events) [] block_enters (λ m held. refl) 12 (9 ∷ [])

lock-Returns_example : Returns (lock rounds three)
lock-Returns_example = lock-Returns rounds 10 11 (12 ∷ []) (inr (inl (λ m. refl)))
