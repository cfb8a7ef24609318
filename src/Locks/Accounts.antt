-- ===== src/Locks/Accounts.antt =====
-- stdlib/_mutex.hpp, class `unique_lock`: which holds the objects know of.
use synchronization_library.Prelude.{
  ℕ, ◌+◌, ◌<◌, ◌≡◌, refl, arith, true, false, none, some, List, inl, inr, Bool-cases, ◌==◌,
  if◌then◌else◌,
}
use synchronization_library.Threads.{total, total-eq-zero}
use synchronization_library.Locks.Handle.{
  Handle, lock_on, no_lock, is_no_lock, LockObjects, put, perform_all, initial,
}
use synchronization_library.Locks.Balance.{
  owned, at, After, Moves, moves, sum, AllWithin, run-Balanced, take-Balanced, unlock_one-Balanced,
  destroy_one-Balanced, release-Balanced, unlock_by_hand-Balanced, put_both-total, is_no_lock-owned,
}
use synchronization_library.Locks.Unique.{
  Use, construct, construct_deferred, construct_adopt, construct_try, destroy, lock, unlock,
  release, try_lock, try_lock_timed, Call, on, move_construct, move_assign, swap, lock_by_hand,
  unlock_by_hand, step, perform,
}

-- How many holds on m a method takes that the object then does not own, or takes from the object that
-- did.
abbrev pub lost_by : ℕ → Use → Handle → ℕ
lost_by m lock (lock_on (some k) owns) = at k m
lost_by m (try_lock ok) (lock_on (some k) owns) = if ok then at k m else 0
lost_by m (try_lock_timed ok) l = owned m l
lost_by m release l = owned m l
lost_by m call l = 0

-- How many holds on m a method gives back that the object did not own, or makes the object own that it
-- did not take.
abbrev pub spent_by : ℕ → Use → Handle → ℕ
spent_by m (construct_adopt k) l = at k m
spent_by m unlock (lock_on (some k) false) = at k m
spent_by m call l = 0

-- A move assignment loses what the object owned; a move construction lets two objects own the same.
abbrev pub lost : ℕ → Call → LockObjects → ℕ
lost m (on i call) s = lost_by m call (s.objects i)
lost m (move_assign i j) s = if j == i then 0 else owned m (s.objects i)
lost m (lock_by_hand k) s = at k m
lost m call s = 0

abbrev pub spent : ℕ → Call → LockObjects → ℕ
spent m (on i call) s = spent_by m call (s.objects i)
spent m (move_construct i j) s = owned m (s.objects j)
spent m (unlock_by_hand k) s = at k m
spent m call s = 0

abbrev pub IsWithin : ℕ → Call → Type 0
IsWithin n (on i call) = i < n
IsWithin n (move_construct i j) = (i < n) × (j < n)
IsWithin n (move_assign i j) = (i < n) × (j < n)
IsWithin n (swap i j) = (i < n) × (j < n)
IsWithin n (lock_by_hand k) = Unit
IsWithin n (unlock_by_hand k) = Unit

step-Balanced :
    (n m i : ℕ) (s : LockObjects) (call : Use) (p : Handle)
    → Moves n m s.objects i p
    → After n m (lost_by m call p) (spent_by m call p) s (put i s (step call s.held p))
unfolding step
step-Balanced n m i s (construct k) (lock_on none false) mv =
    take-Balanced n m i s k true 0 no_lock (lock_on (some k) true) mv (ground arith)
step-Balanced n m i s (construct_deferred k) (lock_on none false) mv =
    let f = mv (lock_on (some k) false) in ground arith
step-Balanced n m i s (construct_try k ok) (lock_on none false) mv =
    take-Balanced n m i s k ok 0 no_lock (lock_on (some k) ok) mv (ground arith)
step-Balanced n m i s (construct_adopt k) (lock_on none false) mv =
    let f = mv (lock_on (some k) true) in ground arith
step-Balanced n m i s destroy p mv = destroy_one-Balanced n m i s p mv
step-Balanced n m i s lock (lock_on (some k) owns) mv =
    take-Balanced n m i s k true (at k m) (lock_on (some k) owns) (lock_on (some k) owns) mv
      (ground arith)
step-Balanced n m i s (try_lock ok) (lock_on (some k) owns) mv =
    take-Balanced n m i s k ok (if ok then at k m else 0) (lock_on (some k) owns)
      (lock_on (some k) owns) mv (ground arith)
step-Balanced n m i s (try_lock_timed ok) (lock_on (some k) owns) mv =
    take-Balanced n m i s k ok (owned m (lock_on (some k) owns)) (lock_on (some k) owns)
      (lock_on (some k) ok) mv (ground arith)
step-Balanced n m i s unlock (lock_on (some k) true) mv = unlock_one-Balanced n m i s k true mv
step-Balanced n m i s unlock (lock_on (some k) false) mv = unlock_one-Balanced n m i s k false mv
step-Balanced n m i s release p mv = release-Balanced n m i s p mv
step-Balanced n m i s call p mv = tt

move_construct-Balanced :
    (n m i j : ℕ) (s : LockObjects)
    → i < n
    → j < n
    → After n m 0 (owned m (s.objects j)) s (perform (move_construct i j) s)
unfolding perform
move_construct-Balanced n m i j s i_lt j_lt = elim (Bool-cases (is_no_lock (s.objects i))) [
  | inl none_here ↦
      rw (none_here, After)
        (ground (
          arith,
          put_both-total n m i j (s.objects j) (s.objects j) s i_lt j_lt,
          is_no_lock-owned m (s.objects i) none_here,
        ))
  | inr some_here ↦ rw (some_here, After) tt
]

perform-Balanced :
    (n m : ℕ) (c : Call) (s : LockObjects)
    → IsWithin n c
    → After n m (lost m c s) (spent m c s) s (perform c s)
unfolding perform
perform-Balanced n m (on i call) s lt =
    step-Balanced n m i s call (s.objects i) (moves n m s.objects i lt)
perform-Balanced n m (move_construct i j) s (i_lt, j_lt) =
    move_construct-Balanced n m i j s i_lt j_lt
perform-Balanced n m (move_assign i j) s (i_lt, j_lt) =
    ground (arith, put_both-total n m i j (s.objects j) no_lock s i_lt j_lt)
perform-Balanced n m (swap i j) s (i_lt, j_lt) =
    ground (arith, put_both-total n m i j (s.objects j) (s.objects i) s i_lt j_lt)
perform-Balanced n m (lock_by_hand k) s w = ground arith
perform-Balanced n m (unlock_by_hand k) s w = unlock_by_hand-Balanced n m 0 s k

-- However a thread constructs, moves, swaps, locks, unlocks, releases and destroys `n` objects of
-- `unique_lock`, and locks and unlocks mutexes by hand: how often it holds a mutex is the number of
-- objects that own the mutex by `owns_`, with the holds that no object knows of (taken by `lock`, by
-- `try_lock` or by hand, and those of an object that owned the mutex when it was locked by a timed try,
-- released or assigned to), less the holds that some object did not lose or did not take (given back by
-- hand or by `unlock` of an object with `owns_` false, adopted, or doubled by the move constructor).
pub unique_lock_holds :
    (n m : ℕ) (cs : List Call) (s : LockObjects)
    → AllWithin (IsWithin n) cs
    → perform_all perform cs initial ≡ some s
    → s.held m + sum perform (spent m) cs initial
      ≡ sum perform (lost m) cs initial + total (owned m) n s.objects
unique_lock_holds n m cs s within ran = omega (
  arith,
  run-Balanced perform (IsWithin n) (lost m) (spent m) n m (perform-Balanced n m) cs initial s
      within ran,
  total-eq-zero (owned m) n initial.objects (λ i lt. refl),
)
