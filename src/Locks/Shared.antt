-- ===== src/Locks/Shared.antt =====
-- stdlib/shared_mutex.hpp, class `shared_lock`: its methods, one call at a time. A hold is a shared one.
use synchronization_library.Prelude.{ℕ, Bool, true, false, Option, none, some, if◌then◌else◌}
use synchronization_library.Locks.Handle.{
  Handle, lock_on, no_lock, is_no_lock, Held, take, give, unlock_one, destroy_one, LockObjects, put,
  put_held, put_both,
}

-- `ok` is what a try on the mutex answers; the timed constructor is a try as well.
pub data Use : Type 0 where
  construct construct_deferred : (m : ℕ) → Use
  construct_try : (m : ℕ) (ok : Bool) → Use
  destroy lock unlock release : Use
  try_lock try_lock_timed : (ok : Bool) → Use

-- A method of one object, those of two, and the thread's own `lock_shared` and `unlock_shared`.
pub data Call : Type 0 where
  on : (object : ℕ) → Use → Call
  move_construct swap : (object other : ℕ) → Call
  lock_by_hand unlock_by_hand : (m : ℕ) → Call

-- An assertion that fails; `asserts` is false where DISABLE_SYNC_ASSERT is defined.
abbrev pub assert : Bool → Bool → Option (Held × Handle) → Option (Held × Handle)
assert true false rest = none
assert asserts condition rest = rest

-- The constructor that locks leaves `owns_` false. `lock` and the tries assert `owns_`, and `unlock`
-- asserts that it is false. `none` is a failed assertion, or a call that the class does not allow.
unfoldable pub step : Bool → Use → Held → Handle → Option (Held × Handle)
step asserts (construct m) h (lock_on none false) = some (take m true h, lock_on (some m) false)
step asserts (construct_deferred m) h (lock_on none false) = some (h, lock_on (some m) false)
step asserts (construct_try m ok) h (lock_on none false) = some (take m ok h, lock_on (some m) ok)
step asserts destroy h l = destroy_one h l
step asserts lock h (lock_on (some m) owns) =
    assert asserts owns (some (take m true h, lock_on (some m) true))
step asserts (try_lock ok) h (lock_on (some m) owns) =
    assert asserts owns (some (take m ok h, lock_on (some m) ok))
step asserts (try_lock_timed ok) h (lock_on (some m) owns) =
    assert asserts owns (some (take m ok h, lock_on (some m) ok))
step asserts unlock h (lock_on (some m) true) =
    assert asserts false (unlock_one h (lock_on (some m) true))
step asserts unlock h (lock_on (some m) false) = unlock_one h (lock_on (some m) false)
step asserts release h l = some (h, no_lock)
step asserts call h l = none

-- The move constructor takes both fields of the other over.
unfoldable pub perform : Bool → Call → LockObjects → Option LockObjects
unfolding step
perform asserts (on i call) s = put i s (step asserts call s.held (s.objects i))
perform asserts (move_construct i j) s =
    if is_no_lock (s.objects i) then some (put_both i j (s.objects j) no_lock s) else none
perform asserts (swap i j) s = some (put_both i j (s.objects j) (s.objects i) s)
perform asserts (lock_by_hand m) s = some (record s { held = take m true s.held })
perform asserts (unlock_by_hand m) s = put_held s (give m s.held no_lock)
