-- ===== src/Tests/Locks.antt =====
-- `unique_lock` (stdlib/_mutex.hpp) and `shared_lock` (stdlib/shared_mutex.hpp) at concrete calls.
use synchronization_library.Prelude.{◌+◌, ◌≡◌, refl, arith, true, none, some, List, [], ◌∷◌, Option}
use synchronization_library.Threads.{total}
use synchronization_library.Locks.Handle.{LockObjects, no_lock, Held, perform_all, initial}
use synchronization_library.Locks.Balance.{owned, sum}
use synchronization_library.Locks.Accounts
use synchronization_library.Locks.SharedAccounts
use synchronization_library.Locks.Accounts.{unique_lock_holds}
use synchronization_library.Locks.SharedAccounts.{shared_lock_holds}
use synchronization_library.Locks.Scope.{scope, holds_after, scope_end}
use synchronization_library.Locks.Unique
use synchronization_library.Locks.Shared

abbrev last_of : Option LockObjects → LockObjects
last_of none = initial
last_of (some s) = s

-- Object 0 locks mutex 7 by `lock`; object 1 takes over what object 2 owns, and object 0 is destroyed.
abbrev three_objects : List Unique.Call
three_objects =
    Unique.on 0 (Unique.construct_deferred 7)
    ∷ Unique.on 0 Unique.lock
    ∷ Unique.lock_by_hand 7
    ∷ Unique.on 2 (Unique.construct_adopt 7)
    ∷ Unique.move_assign 1 2
    ∷ Unique.on 0 Unique.destroy
    ∷ []

abbrev three_last : LockObjects
unfolding Unique.perform Unique.step
three_last = last_of (perform_all Unique.perform three_objects initial)

unique_lock_holds_example :
    three_last.held 7 + sum Unique.perform (Accounts.spent 7) three_objects initial
    ≡ sum Unique.perform (Accounts.lost 7) three_objects initial
      + total (owned 7) 3 three_last.objects
unfolding Unique.perform Unique.step
unique_lock_holds_example =
    unique_lock_holds 3 7 three_objects three_last
      (
        omega arith,
        (omega arith, (tt, (omega arith, ((omega arith, omega arith), (omega arith, tt))))),
      )
      refl

-- The lock that object 0 took is lost.
three_held : three_last.held 7 ≡ 2
unfolding Unique.perform Unique.step
three_held = refl

-- A reader that was constructed with its lock, and destroyed; another that moves before it goes.
abbrev readers : List Shared.Call
readers =
    Shared.on 0 (Shared.construct 7)
    ∷ Shared.on 0 Shared.destroy
    ∷ Shared.on 0 (Shared.construct_try 7 true)
    ∷ Shared.move_construct 1 0
    ∷ Shared.on 1 Shared.destroy
    ∷ []

abbrev readers_last : LockObjects
unfolding Shared.perform Shared.step
readers_last = last_of (perform_all (Shared.perform true) readers initial)

shared_lock_holds_example :
    readers_last.held 7 + sum (Shared.perform true) (SharedAccounts.spent 7) readers initial
    ≡ sum (Shared.perform true) (SharedAccounts.lost 7) readers initial
      + total (owned 7) 2 readers_last.objects
unfolding Shared.perform Shared.step
shared_lock_holds_example =
    shared_lock_holds true 2 7 readers readers_last
      (omega arith, (omega arith, (omega arith, ((omega arith, omega arith), (omega arith, tt)))))
      refl

never_given_back : readers_last.held 7 ≡ 1
unfolding Shared.perform Shared.step
never_given_back = refl

-- Two objects own one hold after a move construction, and the second destructor unlocks a mutex that is
-- not held.
unlocks_twice :
    perform_all Unique.perform
      (Unique.on 0 (Unique.construct 7)
        ∷ Unique.move_construct 1 0
        ∷ Unique.on 1 Unique.destroy
        ∷ Unique.on 0 Unique.destroy
        ∷ [])
      initial
    ≡ none
unfolding Unique.perform Unique.step
unlocks_twice = refl

abbrev nothing_held : Held
nothing_held = λ _. 0

scopes_end :
    (holds_after 7 (scope (Unique.construct 7 ∷ Unique.destroy ∷ []) (some (nothing_held, no_lock)))
      ≡ some 0)
    × (holds_after 7 (
          scope
            (Unique.construct_deferred 7 ∷ Unique.try_lock_timed true ∷ Unique.destroy ∷ [])
            (some (nothing_held, no_lock)))
        ≡ some 0)
    × (holds_after 7 (
          scope
            (Unique.construct_deferred 7 ∷ Unique.lock ∷ Unique.unlock ∷ Unique.destroy ∷ [])
            (some (nothing_held, no_lock)))
        ≡ some 0)
    × (holds_after 7 (
          scope
            (Unique.construct_deferred 7 ∷ Unique.lock ∷ Unique.destroy ∷ [])
            (some (nothing_held, no_lock)))
        ≡ some 1)
scopes_end = scope_end nothing_held 7
