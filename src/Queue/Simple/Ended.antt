-- ===== src/Queue/Simple/Ended.antt =====
-- sync/queue.hpp, class `simple_blocking_queue`: objects leave in order, and after `done` nobody waits.
use mathlib.Core.Path.{subst}
use mathlib.Core.List.{append_assoc}
use synchronization_library.Prelude.{
  ◌≡◌, refl, sym, ap, ◌∙◌, Bool, true, false, ◌||◌, not, Option, none, some, List, [], ◌∷◌, ◌++◌,
  if◌then◌else◌, Bool-cases, Option-cases, inl, inr,
}
use synchronization_library.Queue.Simple.{
  SimpleBlockingQueue, Call, push, try_push, pop, done, try_pop, Answer, initial, put, take,
  is_empty, step, run,
}

module _ {A : Type 0} where
  -- Nothing is lost, and the order is kept.
  abbrev Ordered : SimpleBlockingQueue A → Type 0
  Ordered q = q.pushed ≡ q.popped ++ q.queue

  -- After a call that can be made.
  abbrev After :
      (SimpleBlockingQueue A → Type 0) → Option (Answer A × SimpleBlockingQueue A) → Type 0
  After P none = Unit
  After P (some (answer, q)) = P q

  put-Ordered : (x : A) (q : SimpleBlockingQueue A) → Ordered q → Ordered (put x q)
  put-Ordered x q held = rw held (append_assoc q.popped q.queue (x ∷ []))

  take-Ordered :
      (xs : List A) (q : SimpleBlockingQueue A) → q.queue ≡ xs → Ordered q → Ordered (take xs q).1
  take-Ordered [] q e held = held
  take-Ordered (x ∷ xs) q e held =
      held ∙ ap (λ ys. q.popped ++ ys) e ∙ sym (append_assoc q.popped (x ∷ []) xs)

  -- What holds of a queue, and after each call that can be made, holds after all calls.
  run-induction :
      (P : SimpleBlockingQueue A → Type 0)
      → ((call : Call A) (q : SimpleBlockingQueue A) → P q → After P (step call q))
      → (calls : List (Call A)) (q : SimpleBlockingQueue A) → P q
      → P (run calls q)
  unfolding run
  run-induction P keep [] q p = p
  run-induction P keep (call ∷ calls) q p = elim (Option-cases (step call q)) [
    | inl waits ↦ rw (waits, run) (run-induction P keep calls q p)
    | inr ((answer, q'), made) ↦
        rw (made, run) (run-induction P keep calls q' (subst (After P) made (keep call q p)))
  ]

  step-Ordered :
      (call : Call A) (q : SimpleBlockingQueue A) → Ordered q → After Ordered (step call q)
  unfolding step
  step-Ordered (push x) q held = put-Ordered x q held
  step-Ordered (try_push x true) q held = put-Ordered x q held
  step-Ordered (try_push x false) q held = held
  step-Ordered pop q held = elim (Bool-cases (not (is_empty q.queue) || q.is_done)) [
    | inl ready ↦ rw (ready, After) (take-Ordered q.queue q refl held)
    | inr waits ↦ rw (waits, After) tt
  ]
  step-Ordered (try_pop true) q held = take-Ordered q.queue q refl held
  step-Ordered (try_pop false) q held = held
  step-Ordered done q held = held

  abbrev IsDone : SimpleBlockingQueue A → Type 0
  IsDone q = q.is_done ≡ true

  take-IsDone : (xs : List A) (q : SimpleBlockingQueue A) → IsDone q → IsDone (take xs q).1
  take-IsDone [] q over = over
  take-IsDone (x ∷ xs) q over = over

  step-IsDone : (call : Call A) (q : SimpleBlockingQueue A) → IsDone q → After IsDone (step call q)
  unfolding step
  step-IsDone (push x) q over = over
  step-IsDone (try_push x true) q over = over
  step-IsDone (try_push x false) q over = over
  step-IsDone pop q over = elim (Bool-cases (not (is_empty q.queue) || q.is_done)) [
    | inl ready ↦ rw (ready, After) (take-IsDone q.queue q over)
    | inr waits ↦ rw (waits, After) tt
  ]
  step-IsDone (try_pop true) q over = take-IsDone q.queue q over
  step-IsDone (try_pop false) q over = over
  step-IsDone done q over = refl

  -- Once `done` has been called on a fresh `simple_blocking_queue`, whatever calls come before and
  -- after: `pop` never waits. It takes the oldest of the objects that were pushed and not popped, and
  -- comes back with nothing only where there is none.
  pub ended_answers :
      (calls later : List (Call A))
      → (run calls initial).is_done ≡ true
      → (step pop (run later (run calls initial))
          ≡ some (take (run later (run calls initial)).queue (run later (run calls initial))))
        × ((run later (run calls initial)).pushed
            ≡ (run later (run calls initial)).popped ++ (run later (run calls initial)).queue)
  unfolding step
  ended_answers calls later over = (
    answers (run later (run calls initial))
        (run-induction IsDone step-IsDone later (run calls initial) over),
    run-induction Ordered step-Ordered later (run calls initial)
        (run-induction Ordered step-Ordered calls initial refl),
  )
    where
      go_on :
          {B : Type 0} (b c : Bool) (x : B)
          → c ≡ true
          → (if not b || c then some x else none) ≡ some x
      go_on true c x over = rw over refl
      go_on false c x over = refl

      answers : (q : SimpleBlockingQueue A) → IsDone q → step pop q ≡ some (take q.queue q)
      answers q over = go_on (is_empty q.queue) q.is_done (take q.queue q) over
