-- ===== src/StopState/Callbacks/Lifetime.antt =====
-- stdlib/stop_token.hpp: `request_stop` against the destructors of the callbacks.
use mathlib.Core.Option
use synchronization_library.Prelude.{
  ℕ, ◌≤◌, ◌≡◌, refl, arith, Bool, true, false, Option, none, some, [], if◌then◌else◌,
}
use synchronization_library.Threads.{System, Reach, Reach-induction, After}
use synchronization_library.StopState.Callbacks.Links.{is_linked}
use synchronization_library.StopState.Callbacks.Run.{
  Phase, not_begun, taken, executing, finishing, between, ended, Pc, absent, unbound, registered,
  erasing, waiting, StopState, Call, construct_callback, destroy, compare_ids, wait_finished,
  request_stop, go_on, advance, is_free, set_flag, move, step_at, step, initial,
}
use synchronization_library.StopState.Callbacks.Invariant.{
  is_bound, will_touch, Placed, Inv, construct_unbound-Inv, execute-Inv, clear_flag-Inv, skip-Inv,
  finish-Inv, end-Inv, erase_unlinked-Inv, wait-Inv, leave-Inv,
}
use synchronization_library.StopState.Callbacks.Changes.{
  construct_registered-Inv, unlink-Inv, flag-Inv, leave_free-Inv, leave_finished-Inv, take_next-Inv,
}

-- The invariant after a step that can be made.
abbrev Kept : Option StopState → Type 0
Kept none = Unit
Kept (some m) = Inv m

if-Kept :
    (b : Bool) (x y : Option StopState)
    → (b ≡ true → Kept x)
    → (b ≡ false → Kept y)
    → Kept (if b then x else y)
if-Kept true x y k l = k refl
if-Kept false x y k l = l refl

advance-Inv : (m : StopState) → Inv m → (phase : Phase) → m.phase ≡ phase → Kept (advance phase m)
unfolding advance
advance-Inv m inv not_begun at = tt
advance-Inv m inv (taken cb last) at = execute-Inv m inv cb last at
advance-Inv m inv (executing cb last true) at = skip-Inv m inv cb last at
advance-Inv m inv (executing cb last false) at = clear_flag-Inv m inv cb last at
advance-Inv m inv (finishing cb last) at = finish-Inv m inv cb last at
advance-Inv m inv (between true) at = end-Inv m inv at
advance-Inv m inv (between false) at =
    take_next-Inv m inv (λ j. ground (arith, at)) m.requested (ground (arith, inv.begun, at))
advance-Inv m inv ended at = tt

compare_ids-Inv :
    (i : ℕ) (m : StopState) (flagged : Bool)
    → Inv m
    → m.at i ≡ erasing
    → is_free m.phase ≡ true
    → m.has_flag i ≡ flagged
    → Inv (move i absent (if flagged then record m { phase = set_flag m.phase } else m))
compare_ids-Inv i m true inv at free e = flag-Inv m inv i at e
compare_ids-Inv i m false inv at free e = leave_free-Inv m inv i at e free

step_at-Inv :
    (call : Call) (p : Pc) (i : ℕ) (m : StopState) → Inv m → m.at i ≡ p → Kept (step_at call p i m)
unfolding step_at
step_at-Inv (construct_callback possible) absent i m inv at =
    if-Kept m.requested _ _ (λ late. construct_unbound-Inv m inv i 1 at (omega arith))
      (λ early.
        if-Kept possible _ _ (λ can. construct_registered-Inv m inv i early at)
          (λ cannot. construct_unbound-Inv m inv i 0 at (omega arith)))
step_at-Inv destroy unbound i m inv at =
    leave-Inv m inv i (ground (arith, inv.placed i, at)) (ground (arith, inv.placed i, at))
step_at-Inv destroy registered i m inv at =
    if-Kept (is_linked i m.links) _ _ (λ linked. unlink-Inv m inv i at linked)
      (λ not_linked. erase_unlinked-Inv m inv i at not_linked)
step_at-Inv (compare_ids true) erasing i m inv at =
    if-Kept (is_free m.phase) _ _ (λ free. compare_ids-Inv i m (m.has_flag i) inv at free refl)
      (λ busy. tt)
step_at-Inv (compare_ids false) erasing i m inv at = wait-Inv m inv i at
step_at-Inv wait_finished waiting i m inv at =
    if-Kept (m.finished i) _ _ (λ over. leave_finished-Inv m inv i at over) (λ running. tt)
step_at-Inv request_stop p i m inv at =
    if-Kept m.requested _ _ (λ late. tt)
      (λ early. take_next-Inv m inv (λ j. ground (arith, inv.begun, early)) true refl)
step_at-Inv go_on p i m inv at = advance-Inv m inv m.phase refl
step_at-Inv call p i m inv at = tt

-- An object's own number, and the invariant.
abbrev Safe : System StopState ℕ → Type 0
Safe s = ((i : ℕ) → s.pc i ≡ i) × Inv s.mem

stepped :
    (s : System StopState ℕ) (i : ℕ) (o : Option StopState)
    → ((j : ℕ) → s.pc j ≡ j)
    → Kept o
    → After Safe s i (Option.map (λ m. (m, i)) o)
stepped s i none names kept = tt
stepped s i (some m) names kept = (λ j. ground (arith, names j), kept)

Reach-Inv : (n : ℕ) {s : System StopState ℕ} → Reach step n initial s → Inv s.mem
unfolding step
Reach-Inv n {s} r = reached.1
  where
    reached : Safe s
    reached =
        Reach-induction step Safe n
          (λ u i call p safe lt at.
            rw (← at, safe.0 i)
              (stepped u i (step_at call (u.mem.at i) i u.mem) safe.0
                (step_at-Inv call (u.mem.at i) i u.mem safe.1 refl)))
          (
            λ i. refl,
            record {
              contents = [];
              chain = refl;
              placed = λ i. ground arith;
              begun = refl;
              emptied = λ e. refl;
            },
          )
          r

-- However `n` callback objects are made and destroyed while `request_stop` runs, from its own callbacks
-- too: a node that `request_stop` will touch again belongs to an object that exists, and that has not
-- told its destructor to go on. And no callback is called twice.
pub touched_alive :
    (n : ℕ) {s : System StopState ℕ}
    → Reach step n initial s
    → (i : ℕ) → will_touch s.mem.phase i ≡ true
    → (is_bound (s.mem.at i) ≡ true) × (s.mem.finished i ≡ false) × (s.mem.runs i ≤ 1)
touched_alive n {s} r i touched = (alive touched, unfinished_yet touched, once)
  where
    inv : Inv s.mem
    inv = Reach-Inv n r

    open (inv.placed i) use {alive, unfinished_yet, once}

-- Once `request_stop` is over, each object that exists and was made with the state has had its callback
-- called exactly once and finished, so that its destructor does not wait.
pub served_once :
    (n : ℕ) {s : System StopState ℕ}
    → Reach step n initial s
    → s.mem.phase ≡ ended
    → (i : ℕ) → is_bound (s.mem.at i) ≡ true
    → (s.mem.runs i ≡ 1) × (s.mem.finished i ≡ true)
served_once n {s} r over i bound =
    (ground (arith, here, none_left), ground (arith, here, none_left))
  where
    inv : Inv s.mem
    inv = Reach-Inv n r

    here : Placed s.mem inv.contents i
    here = inv.placed i

    none_left : inv.contents ≡ []
    none_left = inv.emptied (ground (arith, over))
