-- ===== src/StopState/Callbacks/Run.antt =====
-- stdlib/stop_token.hpp: `request_stop` in one thread, and `stop_callback` objects that are made and
-- destroyed by that thread and by others. What happens under the lock bit of `state_` is one step, and
-- an object is named by its node.
use mathlib.Core.Option
use synchronization_library.Prelude.{ℕ, ◌+◌, Bool, true, false, Option, none, some, if◌then◌else◌}
use synchronization_library.Threads.{System, update}
use synchronization_library.StopState.Callbacks.Links.{
  Links, construct, push, is_linked, unlink, pop,
}

-- Where `request_stop` stands. `last` is its `empty`, and `removed` its `is_removed_`.
pub data Phase : Type 0 where
  not_begun : Phase
  taken : (cb : ℕ) (last : Bool) → Phase  -- has unlinked cb
  executing : (cb : ℕ) (last removed : Bool) → Phase  -- is in `cb->execute()`
  finishing : (cb : ℕ) (last : Bool) → Phase  -- before it sets `callback_finished_executing_`
  between : (last : Bool) → Phase
  ended : Phase

-- Where an object stands.
pub data Pc : Type 0 where
  absent : Pc  -- is not made yet, or destroyed
  unbound : Pc  -- was made without a stop state
  registered : Pc
  erasing : Pc  -- in its destructor, which has found the node unlinked
  waiting : Pc  -- in the destructor's loop

-- `requested` is the bit of `state_`; `has_flag` is whether `is_removed_` of a node points to the flag of
-- `request_stop`, and `finished` is its `callback_finished_executing_`. `runs` is no field: it counts how
-- often the object's callback was called; `at` is where each object stands.
pub record StopState : Type 0 where
  pub requested : Bool
  pub links : Links
  pub has_flag : ℕ → Bool
  pub finished : ℕ → Bool
  pub phase : Phase
  pub runs : ℕ → ℕ
  pub at : ℕ → Pc

pub data Call : Type 0 where
  construct_callback : (possible : Bool) → Call  -- a stop is possible
  destroy : Call
  compare_ids : (same : Bool) → Call  -- the destructor runs in the thread of `request_stop`
  wait_finished : Call
  request_stop go_on : Call

-- A round's critical section.
abbrev pub take_next : StopState → StopState
take_next m = elim (pop m.links) [
  | none ↦ record m { phase = ended }
  | some (cb, last, links) ↦ record m { phase = taken cb last; links = links }
]

-- The next step of `request_stop`, whose critical sections reach to the next `unlock`.
unfoldable pub advance : Phase → StopState → Option StopState
unfolding pop
advance not_begun m = none
advance (taken cb last) m = some (record m {
  has_flag = update m.has_flag cb true;
  runs = update m.runs cb (m.runs cb + 1);
  phase = executing cb last false;
})
advance (executing cb last true) m = some (record m { phase = between last })
advance (executing cb last false) m =
    some (record m { has_flag = update m.has_flag cb false; phase = finishing cb last })
advance (finishing cb last) m =
    some (record m { finished = update m.finished cb true; phase = between last })
advance (between true) m = some (record m { phase = ended })
advance (between false) m = some (take_next m)
advance ended m = none

-- `*cb->is_removed_ = true`
abbrev pub set_flag : Phase → Phase
set_flag (executing cb last removed) = executing cb last true
set_flag phase = phase

-- A destructor can run in the thread of `request_stop` while that is in a callback or over.
abbrev pub is_free : Phase → Bool
is_free (executing cb last removed) = true
is_free ended = true
is_free phase = false

abbrev pub move : ℕ → Pc → StopState → StopState
move i p m = record m { at = update m.at i p }

-- One step of the object i, which stands there. The steps of `request_stop` leave it as it is.
unfoldable pub step_at : Call → Pc → ℕ → StopState → Option StopState
unfolding advance push unlink pop
step_at (construct_callback possible) absent i m =
    if m.requested
    then some (move i unbound (record m { runs = update m.runs i 1 }))
    else if possible
    then some (
        move i registered (record m {
          links = push i (construct i m.links);
          has_flag = update m.has_flag i false;
          finished = update m.finished i false;
          runs = update m.runs i 0;
        }))
    else some (move i unbound (record m { runs = update m.runs i 0 }))
step_at destroy unbound i m = some (move i absent m)
step_at destroy registered i m =
    if is_linked i m.links
    then some (move i absent (record m { links = unlink i m.links }))
    else some (move i erasing m)
step_at (compare_ids true) erasing i m =
    if is_free m.phase
    then some (move i absent (if m.has_flag i then record m { phase = set_flag m.phase } else m))
    else none
step_at (compare_ids false) erasing i m = some (move i waiting m)
step_at wait_finished waiting i m = if m.finished i then some (move i absent m) else none
step_at request_stop p i m =
    if m.requested then none else some (take_next (record m { requested = true }))
step_at go_on p i m = advance m.phase m
step_at call p i m = none

-- A thread of the system is an object, and its value its own number.
unfoldable pub step : Call → StopState → ℕ → Option (StopState × ℕ)
unfolding step_at
step call m i = Option.map (λ m'. (m', i)) (step_at call (m.at i) i m)

abbrev pub initial : System StopState ℕ
initial = record {
  mem = record {
    requested = false;
    links = record { head = none; next = λ _. none; prev = λ _. none };
    has_flag = λ _. false;
    finished = λ _. false;
    phase = not_begun;
    runs = λ _. 0;
    at = λ _. absent;
  };
  pc = λ i. i;
}
