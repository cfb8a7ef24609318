-- ===== src/Locks/Unique.antt =====
-- stdlib/_mutex.hpp, class `unique_lock`: its methods, one call at a time.
use synchronization_library.Prelude.{Bool, true, false, ℕ, Option, none, some, if◌then◌else◌}
use synchronization_library.Locks.Handle.{
  Handle, lock_on, no_lock, is_no_lock, Held, take, give, unlock_one, destroy_one, LockObjects, put,
  put_held, put_both,
}

-- `ok` is what a try on the mutex answers; the timed constructors and methods are tries as well.
pub data Use : Type 0 where
  construct construct_deferred construct_adopt : (m : ℕ) → Use
  construct_try : (m : ℕ) (ok : Bool) → Use
  destroy lock unlock release : Use
  try_lock try_lock_timed : (ok : Bool) → Use

-- A method of one object, those of two, and the thread's own `lock` and `unlock` of a mutex.
pub data Call : Type 0 where
  on : (object : ℕ) → Use → Call
  move_construct move_assign swap : (object other : ℕ) → Call
  lock_by_hand unlock_by_hand : (m : ℕ) → Call

-- `none` is a call that the class does not allow. `lock` and `try_lock` do not write `owns_`. A mutex is
-- adopted that the thread holds.
unfoldable pub step : Use → Held → Handle → Option (Held × Handle)
step (construct m) h (lock_on none false) = some (take m true h, lock_on (some m) true)
step (construct_deferred m) h (lock_on none false) = some (h, lock_on (some m) false)
step (construct_try m ok) h (lock_on none false) = some (take m ok h, lock_on (some m) ok)
step (construct_adopt m) h (lock_on none false) = some (h, lock_on (some m) true)
step destroy h l = destroy_one h l
step lock h (lock_on (some m) owns) = some (take m true h, lock_on (some m) owns)
step (try_lock ok) h (lock_on (some m) owns) = some (take m ok h, lock_on (some m) owns)
step (try_lock_timed ok) h (lock_on (some m) owns) = some (take m ok h, lock_on (some m) ok)
step unlock h l = unlock_one h l
step release h l = some (h, no_lock)
step call h l = none

-- The defaulted move constructor copies both fields and leaves those of the other. The move assignment
-- takes both fields of the other over, and says nothing to the mutex that the object had.
unfoldable pub perform : Call → LockObjects → Option LockObjects
unfolding step
perform (on i call) s = put i s (step call s.held (s.objects i))
perform (move_construct i j) s =
    if is_no_lock (s.objects i) then some (put_both i j (s.objects j) (s.objects j) s) else none
perform (move_assign i j) s = some (put_both i j (s.objects j) no_lock s)
perform (swap i j) s = some (put_both i j (s.objects j) (s.objects i) s)
perform (lock_by_hand m) s = some (record s { held = take m true s.held })
perform (unlock_by_hand m) s = put_held s (give m s.held no_lock)
