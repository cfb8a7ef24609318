-- ===== src/RecursiveTimedMutex.antt =====
-- stdlib/mutex.hpp, class `recursive_timed_mutex`, alone and under many threads.
pub mod Invariant
pub mod Safety
use synchronization_library.Prelude.{
  ℕ, ◌+◌, ◌-◌, ◌%◌, ◌^◌, Bool, true, false, ◌&&◌, ◌||◌, Option, none, some, ◌==◌, if◌then◌else◌,
}
use synchronization_library.Threads.{System}

-- `count_`, of type `size_t`, and `id_`, where 0 is SYNC_NULL_THREAD.
pub record RecursiveTimedMutex : Type 0 where
  pub count : ℕ
  pub id : ℕ

abbrev pub max_count : ℕ
max_count = 2 ^ 64 - 1

pub data Locked : Type 0 where
  acquired : RecursiveTimedMutex → Locked
  limit_reached : Locked  -- the assertion fails
  waiting : Locked

-- `asserts` is false where DISABLE_SYNC_ASSERT is defined: `++count_` then wraps round.
unfoldable pub lock : Bool → ℕ → RecursiveTimedMutex → Locked
lock asserts self m =
    if self == m.id
    then (if asserts && m.count == max_count
        then limit_reached
        else acquired (record m { count = (m.count + 1) % 2 ^ 64 }))
    else (if m.count == 0 then acquired (record { count = 1; id = self }) else waiting)

-- `owns` is whether the `try_to_lock` on `mtx_` succeeds.
unfoldable pub try_lock : Bool → ℕ → RecursiveTimedMutex → Bool × RecursiveTimedMutex
try_lock owns self m =
    if owns && (m.count == 0 || self == m.id)
    then (if m.count == max_count
        then (false, m)
        else (true, record { count = m.count + 1; id = self }))
    else (false, m)

-- `expired`: the time is over; `none` is a thread that waits.
unfoldable pub try_lock_until : Bool → ℕ → RecursiveTimedMutex → Option (Bool × RecursiveTimedMutex)
try_lock_until expired self m =
    if self == m.id
    then (if m.count == max_count
        then some (false, m)
        else some (true, record m { count = m.count + 1 }))
    else (if m.count == 0
        then some (true, record { count = 1; id = self })
        else (if expired then some (false, m) else none))

-- `if (--count_ == 0) id_ = SYNC_NULL_THREAD`
unfoldable pub unlock : RecursiveTimedMutex → RecursiveTimedMutex
unlock m =
    let less = (m.count + 2 ^ 64 - 1) % 2 ^ 64 in
    if less == 0 then record { count = less; id = 0 } else record m { count = less }

-- A thread's id, and how often it holds the mutex.
pub record Owner : Type 0 where
  pub self : ℕ
  pub depth : ℕ

pub data Call : Type 0 where
  call_lock call_unlock : Call
  call_try_lock : (owns : Bool) → Call
  call_try_lock_until : (expired : Bool) → Call

abbrev deeper : Owner → Owner
deeper p = record p { depth = p.depth + 1 }

abbrev attempt : Owner → Bool × RecursiveTimedMutex → RecursiveTimedMutex × Owner
attempt p (true, m) = (m, deeper p)
attempt p (false, m) = (m, p)

-- One step of one thread. The mutex is unlocked by a thread that holds it.
unfoldable pub step :
    (asserts : Bool) → Call → RecursiveTimedMutex → Owner → Option (RecursiveTimedMutex × Owner)
unfolding lock try_lock try_lock_until unlock
step asserts call_lock m p = elim (lock asserts p.self m) [
  | acquired m' ↦ some (m', deeper p)
  | limit_reached ↦ none
  | waiting ↦ none
]
step asserts (call_try_lock owns) m p = some (attempt p (try_lock owns p.self m))
step asserts (call_try_lock_until expired) m p = elim (try_lock_until expired p.self m) [
  | none ↦ none
  | some r ↦ some (attempt p r)
]
step asserts call_unlock m p =
    if p.depth == 0 then none else some (unlock m, record p { depth = p.depth - 1 })

-- Thread i has the id i + 1.
abbrev pub initial : System RecursiveTimedMutex Owner
initial = record {
  mem = record { count = 0; id = 0 };
  pc = λ i. record { self = i + 1; depth = 0 };
}
