-- ===== src/Thread/Jthread.antt =====
-- stdlib/thread.hpp, class `jthread`: a `stop_source` and a `thread`, and what its methods make of theirs.
use synchronization_library.Prelude.{
  ℕ, ◌+◌, Bool, true, false, Option, none, some, List, [], ◌∷◌, if◌then◌else◌,
}
use synchronization_library.Threads.{update}
use synchronization_library.Thread.Base
use synchronization_library.Thread.Base.{
  ThreadObjects, Outcome, ok, waits, terminated, undefined_call, refused, then_on, joinable,
}

-- The `thread_` of each object, the stop state of its `stop_source_`, the state whose token each of the
-- system's threads was given, and the states on which a stop was requested.
pub record Jthreads : Type 0 where
  pub threads : ThreadObjects
  pub source : ℕ → Option ℕ
  pub token_of : ℕ → ℕ
  pub requested : ℕ → Bool
  pub states : ℕ

pub data Call : Type 0 where
  construct : (at new : ℕ) → Call
  move_construct move_assign swap : (at from : ℕ) → Call
  construct_fails destroy join detach request_stop : (at : ℕ) → Call
  ends : (thread : ℕ) → Call

-- What the `thread_` makes of it.
abbrev pub with_threads : Outcome ThreadObjects → Jthreads → Outcome Jthreads
with_threads (ok t) s = ok (record s { threads = t })
with_threads (waits t) s = waits (record s { threads = t })
with_threads terminated s = terminated
with_threads undefined_call s = undefined_call
with_threads refused s = refused

-- `stop_source_.request_stop()`, on the states.
abbrev pub stopped : Option ℕ → (ℕ → Bool) → ℕ → Bool
stopped none requested = requested
stopped (some k) requested = update requested k true

abbrev pub stop : ℕ → Jthreads → Jthreads
stop i s = record s { requested = stopped (s.source i) s.requested }

-- A new `stop_source_`, and a thread with a token of it.
abbrev pub start : (at new : ℕ) → Jthreads → Jthreads
start i new s = record s {
  source = update s.source i (some s.states);
  token_of = update s.token_of new s.states;
  requested = update s.requested s.states false;
  states = s.states + 1;
}

-- The move constructor and the move assignment of a `stop_source`, as far as its pointer goes.
abbrev pub move_source : (at from : ℕ) → Jthreads → Jthreads
move_source i j s = record s { source = update (update s.source j none) i (s.source j) }

abbrev pub swap_sources : (at from : ℕ) → Jthreads → Jthreads
swap_sources i j s = record s { source = update (update s.source i (s.source j)) j (s.source i) }

-- The destructors of the members.
abbrev pub end_members : (asserts : Bool) → ℕ → Jthreads → Outcome Jthreads
end_members asserts i s =
    with_threads (Base.perform asserts (Base.destroy i) s.threads)
      (record s { source = update s.source i none })

unfoldable pub perform : (asserts : Bool) → Call → Jthreads → Outcome Jthreads
unfolding Base.perform
perform asserts (construct i new) s =
    with_threads (Base.perform asserts (Base.construct i new) s.threads) (start i new s)
perform asserts (construct_fails i) s =
    with_threads (Base.perform asserts (Base.construct_fails i) s.threads) s
perform asserts (move_construct i j) s =
    with_threads (Base.perform asserts (Base.move_construct i j) s.threads) (move_source i j s)
perform asserts (move_assign i j) s =
    with_threads (Base.perform asserts (Base.move_assign i j) s.threads) (move_source i j s)
perform asserts (swap i j) s =
    with_threads (Base.perform asserts (Base.swap i j) s.threads) (swap_sources i j s)
perform asserts (destroy i) s =
    if joinable i s.threads
    then then_on (with_threads (Base.perform asserts (Base.join i) s.threads) (stop i s))
        (end_members asserts i)
    else end_members asserts i s
perform asserts (join i) s = with_threads (Base.perform asserts (Base.join i) s.threads) s
perform asserts (detach i) s = with_threads (Base.perform asserts (Base.detach i) s.threads) s
perform asserts (request_stop i) s = ok (stop i s)
perform asserts (ends h) s = with_threads (Base.perform asserts (Base.ends h) s.threads) s

unfoldable pub perform_all : (asserts : Bool) → List Call → Jthreads → Outcome Jthreads
unfolding perform
perform_all asserts [] s = ok s
perform_all asserts (c ∷ cs) s = then_on (perform asserts c s) (perform_all asserts cs)

abbrev pub initial : Jthreads
initial = record {
  threads = Base.initial;
  source = λ _. none;
  token_of = λ _. 0;
  requested = λ _. false;
  states = 0;
}
