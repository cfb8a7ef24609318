-- ===== src/Locks/Handle.antt =====
-- What `unique_lock` and `shared_lock` have in common: a pointer to a mutex, a flag, and the holds that
-- one thread has on mutexes. A mutex is a number.
use synchronization_library.Prelude.{
  ℕ, ◌+◌, ◌-◌, Bool, true, false, Option, none, some, List, [], ◌∷◌, ◌==◌, if◌then◌else◌,
}
use synchronization_library.Threads.{update}

-- `mtx_`, where `none` is null, and `owns_`.
pub data Handle : Type 0 where
  lock_on : (mtx : Option ℕ) (owns : Bool) → Handle

-- An object that does not exist, or that was made with no mutex.
abbrev pub no_lock : Handle
no_lock = lock_on none false

abbrev pub is_no_lock : Handle → Bool
is_no_lock (lock_on none false) = true
is_no_lock l = false

-- How often the thread holds each mutex.
abbrev pub Held : Type 0
Held = ℕ → ℕ

abbrev pub bit : Bool → ℕ
bit b = if b then 1 else 0

-- A lock, or a try that succeeds or not.
abbrev pub take : ℕ → Bool → Held → Held
take m ok h = update h m (h m + bit ok)

-- An unlock; a mutex that the thread does not hold must not be unlocked.
abbrev pub give : ℕ → Held → Handle → Option (Held × Handle)
give m h l = if h m == 0 then none else some (update h m (h m - 1), l)

-- `mtx_->unlock(); owns_ = false;`, and the destructor: `if (owns_) mtx_->unlock();`
abbrev pub unlock_one : Held → Handle → Option (Held × Handle)
unlock_one h (lock_on (some m) owns) = give m h (lock_on (some m) false)
unlock_one h (lock_on none owns) = none

abbrev pub destroy_one : Held → Handle → Option (Held × Handle)
destroy_one h (lock_on (some m) true) = give m h no_lock
destroy_one h (lock_on none true) = none
destroy_one h (lock_on mtx false) = some (h, no_lock)

-- The objects of a thread, by number, and the holds of that thread.
pub record LockObjects : Type 0 where
  pub held : Held
  pub objects : ℕ → Handle

-- After a method of object i.
abbrev pub put : ℕ → LockObjects → Option (Held × Handle) → Option LockObjects
put i s none = none
put i s (some (h, l)) = some (record { held = h; objects = update s.objects i l })

-- After the thread's own unlock of a mutex.
abbrev pub put_held : LockObjects → Option (Held × Handle) → Option LockObjects
put_held s none = none
put_held s (some (h, l)) = some (record s { held = h })

-- Two objects get new values, `from` first.
abbrev pub put_both : (at from : ℕ) → Handle → Handle → LockObjects → LockObjects
put_both i j l other s = record s { objects = update (update s.objects j other) i l }

abbrev pub initial : LockObjects
initial = record { held = λ _. 0; objects = λ _. no_lock }

-- Calls, one after the other; `none` is a call that is not allowed.
abbrev pub perform_all :
    {C : Type 0}
    → (C → LockObjects → Option LockObjects)
    → List C
    → LockObjects
    → Option LockObjects
perform_all perform [] s = some s
perform_all perform (c ∷ cs) s = elim (perform c s) [
  | none ↦ none
  | some s' ↦ perform_all perform cs s'
]
