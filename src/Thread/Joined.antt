-- ===== src/Thread/Joined.antt =====
-- stdlib/thread.hpp, class `jthread`: the destructor stops and joins its own thread.
use mathlib.Core.Path.{subst}
use synchronization_library.Prelude.{
  ℕ, ◌<◌, ◌≡◌, ◌≢◌, ◌⊎◌, inl, inr, refl, arith, Bool, Bool-cases, true, false, none, List, [], ◌∷◌,
}
use synchronization_library.Threads.{update, total, total-eq-zero, weight-le-total}
use synchronization_library.Thread.Base
use synchronization_library.Thread.Base.{
  Native, unborn, running, finished, joined, detached, ThreadObjects, Outcome, ok, waits,
  terminated, undefined_call, refused, then_on, is_null, joinable, is_running, is_finished,
}
use synchronization_library.Thread.Owners.{has}
use synchronization_library.Thread.Jthread.{
  Jthreads, Call, destroy, join, ends, stop, perform, perform_all, initial,
}
use synchronization_library.Thread.Pairs.{
  Inv, Kept, IsWithin, ended, destroy_finished, destroy_running, and_false, perform-Inv,
}

abbrev pub AreWithin : ℕ → List Call → Type 0
AreWithin n [] = Unit
AreWithin n (c ∷ cs) = IsWithin n c × AreWithin n cs

then_on-Kept :
    (n : ℕ) (o : Outcome Jthreads) (f : Jthreads → Outcome Jthreads)
    → Kept n o
    → ((s : Jthreads) → Inv n s → Kept n (f s))
    → Kept n (then_on o f)
then_on-Kept n (ok s) f inv next = next s inv
then_on-Kept n (waits s) f inv next = tt
then_on-Kept n terminated f inv next = tt
then_on-Kept n undefined_call f inv next = tt
then_on-Kept n refused f inv next = tt

perform_all-Inv :
    (n : ℕ) (asserts : Bool) (cs : List Call) (s : Jthreads)
    → AreWithin n cs
    → Inv n s
    → Kept n (perform_all asserts cs s)
unfolding perform_all
perform_all-Inv n asserts [] s within inv = inv
perform_all-Inv n asserts (c ∷ cs) s (in_range, within) inv =
    then_on-Kept n (perform asserts c s) (perform_all asserts cs)
      (perform-Inv n asserts c s in_range inv)
      (λ s' inv'. perform_all-Inv n asserts cs s' within inv')

-- The thread of object i in s was told to stop, and joined in s'.
abbrev pub HasJoined : ℕ → Jthreads → Jthreads → Type 0
HasJoined i s s' =
    (s'.requested (s.token_of (s.threads.handle i)) ≡ true)
    × (s'.threads.native (s.threads.handle i) ≡ joined)
    × (s'.threads.handle i ≡ 0)

-- The destructor waits with the stop requested; when the thread ends, its join and the destructors of the
-- members come back.
abbrev pub Waits : Bool → ℕ → Jthreads → Type 0
Waits asserts i s =
    (perform asserts (destroy i) s ≡ waits (stop i s))
    × ((stop i s).requested (s.token_of (s.threads.handle i)) ≡ true)
    × (s' : Jthreads) × (perform_all asserts (ends (s.threads.handle i) ∷ join i ∷ destroy i ∷ [])
          (stop i s)
        ≡ ok s')
    × HasJoined i s s'

-- The parts of the destructor after the thread has ended.
thread_ends :
    (asserts : Bool) (h : ℕ) (s : Jthreads)
    → is_running (s.threads.native h) ≡ true
    → perform asserts (ends h) s ≡ ok (record s { threads = Base.set_native h finished s.threads })
unfolding perform Base.perform
thread_ends asserts h s runs = rw runs refl

join_returns :
    (asserts : Bool) (i : ℕ) (s : Jthreads)
    → joinable i s.threads ≡ true
    → is_finished (s.threads.native (s.threads.handle i)) ≡ true
    → perform asserts (join i) s
      ≡ ok (record s {
        threads = Base.set_handle i 0 (Base.set_native (s.threads.handle i) joined s.threads);
      })
unfolding perform Base.perform
join_returns asserts i s bound over = rw (bound, and_false asserts, over) refl

members_end :
    (asserts : Bool) (i : ℕ) (s : Jthreads)
    → joinable i s.threads ≡ false
    → perform asserts (destroy i) s ≡ ok (record s { source = update s.source i none })
unfolding perform Base.perform
members_end asserts i s free = rw free refl

comes_back :
    (asserts : Bool) (i : ℕ) (s : Jthreads)
    → 0 < s.threads.handle i
    → is_running (s.threads.native (s.threads.handle i)) ≡ true
    → (stop i s).requested (s.token_of (s.threads.handle i)) ≡ true
    → (s' : Jthreads) × (perform_all asserts
          (ends (s.threads.handle i) ∷ join i ∷ destroy i ∷ [])
          (stop i s)
        ≡ ok s')
      × HasJoined i s s'
unfolding perform_all
comes_back asserts i s has_one runs told = (
  record over { source = update s.source i none },
  rw
      (
        thread_ends asserts (s.threads.handle i) (stop i s) runs,
        join_returns asserts i at_end (ground (arith, has_one)) (ground arith),
        members_end asserts i over (ground arith),
      )
      refl,
  (told, ground arith, ground arith),
)
  where
    at_end : Jthreads
    at_end = record (stop i s) { threads = Base.set_native (s.threads.handle i) finished s.threads }

    over : Jthreads
    over = record at_end {
      threads = Base.set_handle i 0 (Base.set_native (s.threads.handle i) joined at_end.threads);
    }

-- However a program makes, moves, swaps, joins, detaches and destroys `n` objects of `jthread` and
-- requests stops of them, with or without the assertions, as long as it goes on: let an object have a
-- thread that is not detached, with a handle that no detached thread has had before. Where the thread has
-- ended, the destructor of the object comes back, with a stop requested on the state whose token that
-- very thread was given, and the thread joined. Where it runs, the destructor waits with that stop
-- requested, and comes back with the thread joined once the thread ends.
pub destroy_joins :
    (n : ℕ) (asserts : Bool) (cs : List Call) (s : Jthreads)
    → AreWithin n cs
    → perform_all asserts cs initial ≡ ok s
    → (i : ℕ) → i < n
    → 0 < s.threads.handle i
    → s.threads.native (s.threads.handle i) ≢ detached
    → s.threads.stale (s.threads.handle i) ≡ false
    → ((s' : Jthreads) × (perform asserts (destroy i) s ≡ ok s') × HasJoined i s s')
      ⊎ Waits asserts i s
destroy_joins n asserts cs s within done i i_lt has_one attached fresh =
    elim (Bool-cases (is_finished (s.threads.native (s.threads.handle i)))) [
      | inl over ↦ inl (
        ended i s,
        destroy_finished asserts i s (ground (arith, has_one)) over,
        (told, ground arith, ground arith),
      )
      | inr going ↦
          let back = comes_back asserts i s has_one (runs going) told in
          inr (
            destroy_running asserts i s (ground (arith, has_one)) going (runs going),
            told,
            back.0,
            back.1,
            back.2,
          )
    ]
  where
    first : Inv n initial
    first = record {
      own = λ h pos.
          let none : total (has h) n Base.initial.handle ≡ 0 =
            total-eq-zero (has h) n Base.initial.handle (λ i lt. ground arith) in
          (omega arith, inr none);
      paired = λ i lt has_handle. absurd (omega arith);
    }

    inv : Inv n s
    inv = subst (Kept n) done (perform_all-Inv n asserts cs initial within first)

    told : (stop i s).requested (s.token_of (s.threads.handle i)) ≡ true
    told = rw (inv.paired i i_lt has_one fresh) (ground arith)

    runs :
        is_finished (s.threads.native (s.threads.handle i)) ≡ false
        → is_running (s.threads.native (s.threads.handle i)) ≡ true
    runs going = ground (
      arith,
      going,
      fresh,
      inv.own (s.threads.handle i) has_one,
      weight-le-total (has (s.threads.handle i)) n s.threads.handle i i_lt,
      attached,
    )
