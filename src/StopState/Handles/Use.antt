-- ===== src/StopState/Handles/Use.antt =====
-- stdlib/stop_token.hpp: the methods of `stop_token` and `stop_source`, one call at a time. An object
-- that is not made yet, or destroyed, is taken as one with a null pointer, whose destructor does nothing.
use synchronization_library.Prelude.{
  ℕ, ◌+◌, Bool, true, false, Option, none, some, List, [], ◌∷◌, ◌==◌, if◌then◌else◌,
}
use synchronization_library.Threads.{update}
use synchronization_library.StopState.Word

-- Every `_stop_state` that was made, by number, with its `state_` and whether it was deleted; and the
-- `stop_state_` of each object. `additions` is no field: it counts the calls of `increment_source_ref`.
pub record Objects : Type 0 where
  pub made : ℕ
  pub words : ℕ → ℕ
  pub deleted : ℕ → Bool
  pub tokens : ℕ → Option ℕ
  pub sources : ℕ → Option ℕ
  pub additions : ℕ

abbrev pub set_token : ℕ → Option ℕ → Objects → Objects
set_token i p o = record o { tokens = update o.tokens i p }

abbrev pub set_source : ℕ → Option ℕ → Objects → Objects
set_source i p o = record o { sources = update o.sources i p }

-- `if (stop_state_ != nullptr) stop_state_->increment_token_ref();`
unfoldable pub add_token : Option ℕ → Objects → Objects
unfolding Word.increment_token_ref
add_token none o = o
add_token (some k) o = record o { words = update o.words k (Word.increment_token_ref (o.words k)) }

-- `~stop_token`
unfoldable pub drop_token : Option ℕ → Objects → Objects
unfolding Word.decrement_token_ref
drop_token none o = o
drop_token (some k) o = record o {
  words = update o.words k (Word.decrement_token_ref (o.words k)).0;
  deleted = update o.deleted k (Word.decrement_token_ref (o.words k)).1;
}

unfoldable pub add_source : Option ℕ → Objects → Objects
unfolding Word.increment_source_ref
add_source none o = o
add_source (some k) o = record o {
  words = update o.words k (Word.increment_source_ref (o.words k));
  additions = o.additions + 1;
}

-- `~stop_source`, which calls `increment_source_ref`.
abbrev pub drop_source : Option ℕ → Objects → Objects
drop_source p o = add_source p o

-- `new _stop_state`
abbrev pub make_state : Objects → Objects
make_state o = record o {
  made = o.made + 1;
  words = update o.words o.made Word.initial;
  deleted = update o.deleted o.made false;
}

abbrev pub is_same : Option ℕ → Option ℕ → Bool
is_same none none = true
is_same none (some b) = false
is_same (some a) none = false
is_same (some a) (some b) = a == b

-- `this` is the object `at`, and `from` the other.
pub data Use : Type 0 where
  copy_token move_token assign_token move_assign_token swap_tokens : (at from : ℕ) → Use
  get_token : (at source : ℕ) → Use
  destroy_token destroy_source make_source : (at : ℕ) → Use
  copy_source move_source assign_source move_assign_source swap_sources : (at from : ℕ) → Use

-- A constructor makes an object where there is none.
abbrev pub if_absent : Option ℕ → Objects → Option Objects
if_absent none o = some o
if_absent (some k) o = none

-- The methods of `stop_source`, but for `get_token`.
unfoldable pub perform_on_source : Use → Objects → Option Objects
perform_on_source (make_source i) o =
    if_absent (o.sources i) (set_source i (some o.made) (make_state o))
perform_on_source (copy_source i j) o =
    if_absent (o.sources i) (set_source i (o.sources j) (add_source (o.sources j) o))
perform_on_source (move_source i j) o =
    if_absent (o.sources i) (set_source i (o.sources j) (set_source j none o))
perform_on_source (assign_source i j) o =
    if is_same (o.sources i) (o.sources j)
    then some o
    else some (drop_source (o.sources i) (set_source i (o.sources j) (add_source (o.sources j) o)))
perform_on_source (move_assign_source i j) o =
    let moved = set_source j none o in
    some (drop_source (moved.sources i) (set_source i (o.sources j) moved))
perform_on_source (swap_sources i j) o =
    some (set_source j (o.sources i) (set_source i (o.sources j) o))
perform_on_source (destroy_source i) o = some (drop_source (o.sources i) (set_source i none o))
perform_on_source call o = none

-- The methods of `stop_token`, and those.
unfoldable pub perform : Use → Objects → Option Objects
unfolding perform_on_source
perform (copy_token i j) o =
    if_absent (o.tokens i) (set_token i (o.tokens j) (add_token (o.tokens j) o))
perform (move_token i j) o = if_absent (o.tokens i) (set_token i (o.tokens j) (set_token j none o))
perform (get_token i j) o =
    if_absent (o.tokens i) (set_token i (o.sources j) (add_token (o.sources j) o))
perform (assign_token i j) o =
    if is_same (o.tokens i) (o.tokens j)
    then some o
    else some (drop_token (o.tokens i) (set_token i (o.tokens j) (add_token (o.tokens j) o)))
perform (move_assign_token i j) o =
    let moved = set_token j none o in
    some (drop_token (moved.tokens i) (set_token i (o.tokens j) moved))
perform (swap_tokens i j) o = some (set_token j (o.tokens i) (set_token i (o.tokens j) o))
perform (destroy_token i) o = some (drop_token (o.tokens i) (set_token i none o))
perform call o = perform_on_source call o

-- The calls in order; `none` where one is not allowed.
unfoldable pub perform_all : List Use → Objects → Option Objects
unfolding perform
perform_all [] o = some o
perform_all (u ∷ us) o =
    let rest = perform_all us in elim (perform u o) [ none ↦ none | some o' ↦ rest o' ]

abbrev pub initial : Objects
initial = record {
  made = 0;
  words = λ _. 0;
  deleted = λ _. false;
  tokens = λ _. none;
  sources = λ _. none;
  additions = 0;
}
