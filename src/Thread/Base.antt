-- ===== src/Thread/Base.antt =====
-- stdlib/_thread.hpp, class `thread`: its methods, one call at a time, over the POSIX branch of
-- stdlib/internal/sync_thread.hpp. Of a thread that it has made the system keeps whether it has ended, and
-- whether it was joined or detached, which it must be at most once; a call on any other handle is
-- undefined there. It may give the handle again once the thread was joined, or was detached and has ended.
use synchronization_library.Prelude.{
  ℕ, Bool, true, false, not, ◌&&◌, List, [], ◌∷◌, ◌==◌, if◌then◌else◌,
}
use synchronization_library.Threads.{update}

pub data Native : Type 0 where
  unborn running finished joined detached : Native

-- `handle_` of each object, where 0 is `SYNC_NULL_THREAD`, and the system's threads by their handle. An
-- object that is not made yet, or destroyed, is taken as one with a null handle. `stale` is no field: it
-- tells the handles of detached threads that have ended, which an object may still have.
pub record ThreadObjects : Type 0 where
  pub handle : ℕ → ℕ
  pub native : ℕ → Native
  pub stale : ℕ → Bool

-- What becomes of the program. `waits` is a join that does not come back before the thread has ended; the
-- state is the one in which it waits. A `refused` call is one that a program cannot write.
pub data Outcome (S : Type 0) : Type 0 where
  ok : S → Outcome S
  waits : S → Outcome S
  terminated undefined_call refused : Outcome S

abbrev pub then_on : {S : Type 0} → Outcome S → (S → Outcome S) → Outcome S
then_on (ok s) f = f s
then_on (waits s) f = waits s
then_on terminated f = terminated
then_on undefined_call f = undefined_call
then_on refused f = refused

-- The objects are `at` and, of two, `from`. `new` is the handle that `pthread_create` gives, if it does not
-- fail. `ends` is no call of the program: the thread with this handle ends.
pub data Call : Type 0 where
  construct : (at new : ℕ) → Call
  move_construct move_assign swap : (at from : ℕ) → Call
  construct_fails destroy join detach : (at : ℕ) → Call
  ends : (thread : ℕ) → Call

abbrev pub is_null : ℕ → Bool
is_null handle = handle == 0

abbrev pub joinable : ℕ → ThreadObjects → Bool
joinable i t = not (is_null (t.handle i))

-- A handle that no thread has, so that a new thread may get it.
abbrev pub is_unused : Native → Bool
is_unused unborn = true
is_unused joined = true
is_unused n = false

abbrev pub is_running : Native → Bool
is_running running = true
is_running n = false

abbrev pub is_finished : Native → Bool
is_finished finished = true
is_finished n = false

abbrev pub is_detached : Native → Bool
is_detached detached = true
is_detached n = false

abbrev pub set_handle : ℕ → ℕ → ThreadObjects → ThreadObjects
set_handle i h t = record t { handle = update t.handle i h }

abbrev pub set_native : ℕ → Native → ThreadObjects → ThreadObjects
set_native h n t = record t { native = update t.native h n }

-- A detached thread has ended.
abbrev pub let_go : ℕ → ThreadObjects → ThreadObjects
let_go h t = record t { native = update t.native h unborn; stale = update t.stale h true }

-- `pthread_join`, which comes back when the thread has ended, and `pthread_detach`.
abbrev pub join_native : ℕ → ThreadObjects → Outcome ThreadObjects
join_native h t =
    if is_finished (t.native h)
    then ok (set_native h joined t)
    else (if is_running (t.native h) then waits t else undefined_call)

abbrev pub detach_native : ℕ → ThreadObjects → Outcome ThreadObjects
detach_native h t =
    if is_running (t.native h)
    then ok (set_native h detached t)
    else (if is_finished (t.native h) then ok (let_go h t) else undefined_call)

abbrev pub end_native : ℕ → ThreadObjects → Outcome ThreadObjects
end_native h t =
    if is_running (t.native h)
    then ok (set_native h finished t)
    else (if is_detached (t.native h) then ok (let_go h t) else refused)

-- `SYNC_ASSERT(joinable(), …)`, where the assertions are on.
abbrev pub assert_joinable :
    (asserts : Bool) → ℕ → ThreadObjects → Outcome ThreadObjects → Outcome ThreadObjects
assert_joinable asserts i t rest = if asserts && not (joinable i t) then terminated else rest

abbrev pub sync_thread_join : ℕ → ThreadObjects → Outcome ThreadObjects
sync_thread_join i t = then_on (join_native (t.handle i) t) (λ t'. ok (set_handle i 0 t'))

-- The handle is left as it is.
abbrev pub sync_thread_detach : ℕ → ThreadObjects → Outcome ThreadObjects
sync_thread_detach i t = detach_native (t.handle i) t

unfoldable pub perform : (asserts : Bool) → Call → ThreadObjects → Outcome ThreadObjects
perform asserts (construct i new) t =
    if is_null (t.handle i) && (not (is_null new) && is_unused (t.native new))
    then ok (set_handle i new (set_native new running t))
    else refused
perform asserts (construct_fails i) t =
    if is_null (t.handle i) then (if asserts then terminated else undefined_call) else refused
perform asserts (move_construct i j) t =
    if is_null (t.handle i) then ok (set_handle i (t.handle j) (set_handle j 0 t)) else refused
perform asserts (move_assign i j) t =
    if joinable i t then terminated else ok (set_handle i (t.handle j) (set_handle j 0 t))
perform asserts (swap i j) t = ok (set_handle j (t.handle i) (set_handle i (t.handle j) t))
perform asserts (destroy i) t = if joinable i t then terminated else ok t
perform asserts (join i) t = assert_joinable asserts i t (sync_thread_join i t)
perform asserts (detach i) t = assert_joinable asserts i t (sync_thread_detach i t)
perform asserts (ends h) t = end_native h t

-- The calls in order, up to one that does not come back.
unfoldable pub perform_all : (asserts : Bool) → List Call → ThreadObjects → Outcome ThreadObjects
unfolding perform
perform_all asserts [] t = ok t
perform_all asserts (c ∷ cs) t = then_on (perform asserts c t) (perform_all asserts cs)

abbrev pub initial : ThreadObjects
initial = record { handle = λ _. 0; native = λ _. unborn; stale = λ _. false }
