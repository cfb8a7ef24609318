-- ===== src/Locks/SharedAccounts.antt =====
-- stdlib/shared_mutex.hpp, class `shared_lock`: which holds the objects know of.
use synchronization_library.Prelude.{
  ℕ, ◌+◌, ◌<◌, ◌≡◌, refl, arith, Bool, true, false, none, some, List, inl, inr, Bool-cases,
}
use synchronization_library.Threads.{total, total-eq-zero}
use synchronization_library.Locks.Handle.{
  Handle, lock_on, no_lock, is_no_lock, take, LockObjects, put, perform_all, initial,
}
use synchronization_library.Locks.Balance.{
  owned, at, After, Moves, moves, sum, AllWithin, run-Balanced, take-Balanced, unlock_one-Balanced,
  destroy_one-Balanced, release-Balanced, unlock_by_hand-Balanced, put_both-total, is_no_lock-owned,
}
use synchronization_library.Locks.Shared.{
  Use, construct, construct_deferred, construct_try, destroy, lock, unlock, release, try_lock,
  try_lock_timed, Call, on, move_construct, swap, lock_by_hand, unlock_by_hand, step, perform,
}

-- How many holds on m a method takes that the object then does not own, or takes from the object that
-- did.
abbrev pub lost_by : ℕ → Use → Handle → ℕ
lost_by m (construct k) l = at k m
lost_by m lock l = owned m l
lost_by m (try_lock ok) l = owned m l
lost_by m (try_lock_timed ok) l = owned m l
lost_by m release l = owned m l
lost_by m call l = 0

-- How many holds on m a method gives back that the object did not own.
abbrev pub spent_by : ℕ → Use → Handle → ℕ
spent_by m unlock (lock_on (some k) false) = at k m
spent_by m call l = 0

abbrev pub lost : ℕ → Call → LockObjects → ℕ
lost m (on i call) s = lost_by m call (s.objects i)
lost m (lock_by_hand k) s = at k m
lost m call s = 0

abbrev pub spent : ℕ → Call → LockObjects → ℕ
spent m (on i call) s = spent_by m call (s.objects i)
spent m (unlock_by_hand k) s = at k m
spent m call s = 0

abbrev pub IsWithin : ℕ → Call → Type 0
IsWithin n (on i call) = i < n
IsWithin n (move_construct i j) = (i < n) × (j < n)
IsWithin n (swap i j) = (i < n) × (j < n)
IsWithin n (lock_by_hand k) = Unit
IsWithin n (unlock_by_hand k) = Unit

-- A lock or a try that writes its answer to `owns_`.
retaken :
    (n m i : ℕ) (s : LockObjects) (k : ℕ) (owns ok : Bool)
    → Moves n m s.objects i (lock_on (some k) owns)
    → After n m
        (owned m (lock_on (some k) owns))
        0
        s
        (put i s (some (take k ok s.held, lock_on (some k) ok)))
retaken n m i s k owns ok mv =
    take-Balanced n m i s k ok (owned m (lock_on (some k) owns)) (lock_on (some k) owns)
      (lock_on (some k) ok) mv (ground arith)

step-Balanced :
    (n m i : ℕ) (s : LockObjects) (asserts : Bool) (call : Use) (p : Handle)
    → Moves n m s.objects i p
    → After n m (lost_by m call p) (spent_by m call p) s (put i s (step asserts call s.held p))
unfolding step
step-Balanced n m i s asserts (construct k) (lock_on none false) mv =
    take-Balanced n m i s k true (at k m) no_lock (lock_on (some k) false) mv (ground arith)
step-Balanced n m i s asserts (construct_deferred k) (lock_on none false) mv =
    let f = mv (lock_on (some k) false) in ground arith
step-Balanced n m i s asserts (construct_try k ok) (lock_on none false) mv =
    take-Balanced n m i s k ok 0 no_lock (lock_on (some k) ok) mv (ground arith)
step-Balanced n m i s asserts destroy p mv = destroy_one-Balanced n m i s p mv
step-Balanced n m i s true lock (lock_on (some k) true) mv = retaken n m i s k true true mv
step-Balanced n m i s true (try_lock ok) (lock_on (some k) true) mv = retaken n m i s k true ok mv
step-Balanced n m i s true (try_lock_timed ok) (lock_on (some k) true) mv =
    retaken n m i s k true ok mv
step-Balanced n m i s false lock (lock_on (some k) owns) mv = retaken n m i s k owns true mv
step-Balanced n m i s false (try_lock ok) (lock_on (some k) owns) mv = retaken n m i s k owns ok mv
step-Balanced n m i s false (try_lock_timed ok) (lock_on (some k) owns) mv =
    retaken n m i s k owns ok mv
step-Balanced n m i s false unlock (lock_on (some k) true) mv =
    unlock_one-Balanced n m i s k true mv
step-Balanced n m i s asserts unlock (lock_on (some k) false) mv =
    unlock_one-Balanced n m i s k false mv
step-Balanced n m i s asserts release p mv = release-Balanced n m i s p mv
step-Balanced n m i s asserts call p mv = tt

move_construct-Balanced :
    (n m i j : ℕ) (asserts : Bool) (s : LockObjects)
    → i < n
    → j < n
    → After n m 0 0 s (perform asserts (move_construct i j) s)
unfolding perform
move_construct-Balanced n m i j asserts s i_lt j_lt = elim (Bool-cases (is_no_lock (s.objects i))) [
  | inl none_here ↦
      rw (none_here, After)
        (ground (
          arith,
          put_both-total n m i j (s.objects j) no_lock s i_lt j_lt,
          is_no_lock-owned m (s.objects i) none_here,
        ))
  | inr some_here ↦ rw (some_here, After) tt
]

perform-Balanced :
    (n m : ℕ) (asserts : Bool) (c : Call) (s : LockObjects)
    → IsWithin n c
    → After n m (lost m c s) (spent m c s) s (perform asserts c s)
unfolding perform
perform-Balanced n m asserts (on i call) s lt =
    step-Balanced n m i s asserts call (s.objects i) (moves n m s.objects i lt)
perform-Balanced n m asserts (move_construct i j) s (i_lt, j_lt) =
    move_construct-Balanced n m i j asserts s i_lt j_lt
perform-Balanced n m asserts (swap i j) s (i_lt, j_lt) =
    ground (arith, put_both-total n m i j (s.objects j) (s.objects i) s i_lt j_lt)
perform-Balanced n m asserts (lock_by_hand k) s w = ground arith
perform-Balanced n m asserts (unlock_by_hand k) s w = unlock_by_hand-Balanced n m 0 s k

-- However a thread constructs, moves, swaps, locks, unlocks, releases and destroys `n` objects of
-- `shared_lock`, with or without the assertions, and locks and unlocks mutexes by hand: how often it
-- holds a mutex is the number of objects that own the mutex by `owns_`, with the holds that no object
-- knows of (taken by the constructor that locks or by hand, and those of an object that owned the mutex
-- when it was locked, tried or released), less the holds given back by hand or by `unlock` of an object
-- with `owns_` false.
pub shared_lock_holds :
    (asserts : Bool) (n m : ℕ) (cs : List Call) (s : LockObjects)
    → AllWithin (IsWithin n) cs
    → perform_all (perform asserts) cs initial ≡ some s
    → s.held m + sum (perform asserts) (spent m) cs initial
      ≡ sum (perform asserts) (lost m) cs initial + total (owned m) n s.objects
shared_lock_holds asserts n m cs s within ran = omega (
  arith,
  run-Balanced (perform asserts) (IsWithin n) (lost m) (spent m) n m (perform-Balanced n m asserts)
      cs initial s within ran,
  total-eq-zero (owned m) n initial.objects (λ i lt. refl),
)
