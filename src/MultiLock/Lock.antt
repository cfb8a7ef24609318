-- ===== src/MultiLock/Lock.antt =====
-- stdlib/mutex.hpp: `lock` of several mutexes takes each of them once, and returns as soon as a round
-- finds the others free.
use mathlib.Core.Path.{subst}
use synchronization_library.Prelude.{
  ℕ, zero, suc, ◌+◌, ◌-◌, ◌≡◌, refl, ap, arith, Bool, Option, none, some, List, [], ◌∷◌, ◌++◌, map,
  length, ◌==◌, if◌then◌else◌, Bool-cases, inl, inr,
}
use synchronization_library.MultiLock.Defs.{
  Event, locked, unlocked, remove, replay, TryResult, all_locked, failed, after, round, try_lock,
  lock_first, lock_two, lock, unlock,
}
use synchronization_library.MultiLock.TryLock.{
  Outcome, replay-append, replay-bracket, try_lock-Outcome,
}

-- How often a mutex stands in a list.
abbrev pub count : ℕ → List ℕ → ℕ
count m [] = 0
count m (h ∷ held) = if h == m then suc (count m held) else count m held

pub count-append : (m : ℕ) (xs ys : List ℕ) → count m (xs ++ ys) ≡ count m xs + count m ys
count-append m [] ys = omega arith
count-append m (x ∷ xs) ys = ground (arith, count-append m xs ys)

count-replay_locked :
    (m : ℕ) (ms held : List ℕ) → count m (replay (map locked ms) held) ≡ count m ms + count m held
count-replay_locked m [] held = omega arith
count-replay_locked m (x ∷ ms) held = ground (arith, count-replay_locked m ms (x ∷ held))

-- A call that returns holds each mutex of `ms` once more than before, and no other.
abbrev pub Takes : List ℕ → Option (List Event) → Type 0
Takes ms none = Unit
Takes ms (some events) =
    (m : ℕ) (held : List ℕ) → count m (replay events held) ≡ count m ms + count m held

after-Takes :
    (ms : List ℕ) (events : List Event) (later : Option (List Event))
    → ((held : List ℕ) → replay events held ≡ held)
    → Takes ms later
    → Takes ms (after events later)
after-Takes ms events none kept t = tt
after-Takes ms events (some later) kept t =
    λ m held. rw (replay-append events later held, kept held) (t m held)

round-Takes :
    (free : ℕ → Bool) (m : ℕ) (others ms : List ℕ) (r : TryResult × List Event)
    (again : ℕ → Option (List Event))
    → Outcome free others r
    → ((x : ℕ) → count x (m ∷ others) ≡ count x ms)
    → ((i : ℕ) → Takes ms (again i))
    → Takes ms (round m r again)
round-Takes free m others ms (all_locked, events) again o same t =
    λ x held. rw o.1 (ground (arith, count-replay_locked x others (m ∷ held), same x))
round-Takes free m others ms (failed k, events) again (busy, at, is_busy, before, kept) same t =
    after-Takes ms (locked m ∷ (events ++ (unlocked m ∷ []))) (again k)
      (λ held. replay-bracket m events held kept) (t k)

-- The answers over a list that goes round to m0.
pub round_list-Outcome :
    (free : ℕ → Bool) (m2 m0 : ℕ) (mn : List ℕ)
    → Outcome free (m2 ∷ (mn ++ (m0 ∷ []))) (try_lock free (m2 ∷ (mn ++ (m0 ∷ []))))
round_list-Outcome free m2 m0 [] = try_lock-Outcome free m2 m0 []
round_list-Outcome free m2 m0 (x ∷ xs) = try_lock-Outcome free m2 x (xs ++ (m0 ∷ []))

Takes-count :
    (ms ms' : List ℕ) (o : Option (List Event))
    → ((x : ℕ) → count x ms ≡ count x ms')
    → Takes ms o
    → Takes ms' o
Takes-count ms ms' none same t = tt
Takes-count ms ms' (some events) same t = λ m held. omega (arith, t m held, same m)

lock_first-Takes :
    (rounds : List (ℕ → Bool)) (i : ℕ) (ms : List ℕ) → Takes ms (lock_first rounds i ms)
unfolding lock_first
lock_first-Takes (free ∷ rounds) zero (m0 ∷ m1 ∷ m2 ∷ mn) =
    round-Takes free m0 (m1 ∷ m2 ∷ mn) (m0 ∷ m1 ∷ m2 ∷ mn) _ _ (try_lock-Outcome free m1 m2 mn)
      (λ x. refl) (λ i. lock_first-Takes rounds (i + 1) (m0 ∷ m1 ∷ m2 ∷ mn))
lock_first-Takes (free ∷ rounds) (suc zero) (m0 ∷ m1 ∷ m2 ∷ mn) =
    round-Takes free m1 (m2 ∷ (mn ++ (m0 ∷ []))) (m0 ∷ m1 ∷ m2 ∷ mn) _ _
      (round_list-Outcome free m2 m0 mn) (λ x. ground (arith, count-append x mn (m0 ∷ [])))
      (λ i. lock_first-Takes rounds (if i == length mn + 1 then 0 else i + 2) (m0 ∷ m1 ∷ m2 ∷ mn))
lock_first-Takes (free ∷ rounds) (suc (suc i)) (m0 ∷ m1 ∷ m2 ∷ mn) =
    Takes-count (m2 ∷ (mn ++ (m0 ∷ m1 ∷ []))) (m0 ∷ m1 ∷ m2 ∷ mn) _
      (λ x. ground (arith, count-append x mn (m0 ∷ m1 ∷ [])))
      (lock_first-Takes (free ∷ rounds) i (m2 ∷ (mn ++ (m0 ∷ m1 ∷ []))))
lock_first-Takes _ _ _ = tt

lock_two-Takes :
    (rounds : List (ℕ → Bool)) (m0 m1 : ℕ) → Takes (m0 ∷ m1 ∷ []) (lock_two rounds m0 m1)
unfolding lock_two
lock_two-Takes [] m0 m1 = tt
lock_two-Takes (free ∷ rounds) m0 m1 = elim (Bool-cases (free m1)) [
  | inl free1 ↦ rw (free1, Takes) (λ m held. ground arith)
  | inr busy1 ↦
      rw (busy1, Takes)
        (after-Takes (m0 ∷ m1 ∷ []) (locked m0 ∷ unlocked m0 ∷ []) (lock_two rounds m1 m0)
          (λ held. ground arith)
          (Takes-count (m1 ∷ m0 ∷ []) (m0 ∷ m1 ∷ []) (lock_two rounds m1 m0) (λ x. ground arith)
            (lock_two-Takes rounds m1 m0)))
]

-- Whatever other threads hold while `lock` of two or more mutexes runs: when it returns, each mutex of
-- the list is locked once more than before, and every other is as before.
pub lock-Takes : (rounds : List (ℕ → Bool)) (ms : List ℕ) → Takes ms (lock rounds ms)
unfolding lock
lock-Takes rounds [] = tt
lock-Takes rounds (m0 ∷ []) = tt
lock-Takes rounds (m0 ∷ m1 ∷ []) = lock_two-Takes rounds m0 m1
lock-Takes rounds (m0 ∷ m1 ∷ m2 ∷ mn) = lock_first-Takes rounds 0 (m0 ∷ m1 ∷ m2 ∷ mn)

pub count-remove :
    (m x : ℕ) (held : List ℕ)
    → count m (remove x held) ≡ (if x == m then count m held - 1 else count m held)
count-remove m x [] = ground arith
count-remove m x (h ∷ held) = ground (arith, count-remove m x held)

unlock-eq-map : (ms : List ℕ) → unlock ms ≡ map unlocked ms
unfolding unlock
unlock-eq-map [] = refl
unlock-eq-map (m0 ∷ []) = refl
unlock-eq-map (m0 ∷ m1 ∷ ms) = ap (λ t. unlocked m0 ∷ unlocked m1 ∷ t) (unlock-eq-map ms)

count-replay_unlocked :
    (m : ℕ) (ms held : List ℕ) → count m (replay (map unlocked ms) held) ≡ count m held - count m ms
count-replay_unlocked m [] held = omega arith
count-replay_unlocked m (x ∷ ms) held =
    ground (arith, count-replay_unlocked m ms (remove x held), count-remove m x held)

pub unlock-count :
    (m : ℕ) (ms held : List ℕ) → count m (replay (unlock ms) held) ≡ count m held - count m ms
unlock-count m ms held = rw (unlock-eq-map ms) (count-replay_unlocked m ms held)

-- The life of a `scoped_lock` of several mutexes: when `lock` has returned in the constructor, the
-- destructor's `_unlock` gives back exactly what was taken.
scoped_lock-balance :
    (rounds : List (ℕ → Bool)) (ms : List ℕ) (events : List Event)
    → lock rounds ms ≡ some events
    → (m : ℕ) (held : List ℕ) → count m (replay (events ++ unlock ms) held) ≡ count m held
scoped_lock-balance rounds ms events returned m held = rw (replay-append events (unlock ms) held) (
    omega (
      arith,
      unlock-count m ms (replay events held),
      subst (Takes ms) returned (lock-Takes rounds ms) m held,
    ))
