-- ===== src/MultiLock/Progress.antt =====
-- stdlib/mutex.hpp: `lock` of several mutexes returns once a round finds the others free.
use synchronization_library.Prelude.{
  ℕ, zero, suc, ◌+◌, ◌≤◌, ◌≡◌, arith, Bool, true, false, Option, none, some, List, [], ◌∷◌, ◌++◌,
  length, length-append, ◌==◌, if◌then◌else◌, Bool-cases, ◌⊎◌, inl, inr,
}
use synchronization_library.MultiLock.Defs.{
  Event, locked, unlocked, TryResult, all_locked, failed, after, round, lock_first, lock_two, lock,
}
use synchronization_library.MultiLock.Lock.{round_list-Outcome}
use synchronization_library.MultiLock.TryLock.{Outcome, try_lock-Outcome}

-- Some round finds every mutex free, apart from the one that it waits for.
abbrev pub HasQuietRound : List (ℕ → Bool) → Type 0
HasQuietRound [] = ⊥
HasQuietRound (free ∷ rounds) = ((m : ℕ) → free m ≡ true) ⊎ HasQuietRound rounds

abbrev pub Returns : Option (List Event) → Type 0
Returns none = ⊥
Returns (some events) = Unit

after-Returns :
    (events : List Event) (later : Option (List Event))
    → Returns later
    → Returns (after events later)
after-Returns events (some later) r = tt
after-Returns events none r = r

-- A round returns at once if all others are free, and else as its next round does.
round-Returns :
    (free : ℕ → Bool) (m : ℕ) (others : List ℕ) (r : TryResult × List Event)
    (again : ℕ → Option (List Event))
    → Outcome free others r
    → ((x : ℕ) → free x ≡ true) ⊎ ((i : ℕ) → Returns (again i))
    → Returns (round m r again)
round-Returns free m others (all_locked, events) again o q = tt
round-Returns free m others (failed k, events) again o (inl quiet) = never_busy o.0 (quiet o.0) o.2
  where
    never_busy :
        (x : ℕ) → free x ≡ true → free x ≡ false → Returns (round m (failed k, events) again)
    never_busy x is_free is_busy = cc
round-Returns free m others (failed k, events) again o (inr returns) =
    after-Returns (locked m ∷ (events ++ (unlocked m ∷ []))) (again k) (returns k)

-- The quiet round is this one or a later one.
sooner :
    (free : ℕ → Bool) (rounds : List (ℕ → Bool)) (again : ℕ → Option (List Event))
    → ((m : ℕ) → free m ≡ true) ⊎ HasQuietRound rounds
    → ((i : ℕ) → HasQuietRound rounds → Returns (again i))
    → ((m : ℕ) → free m ≡ true) ⊎ ((i : ℕ) → Returns (again i))
sooner free rounds again (inl quiet) next = inl quiet
sooner free rounds again (inr later) next = inr (λ i. next i later)

lock_first-Returns :
    (rounds : List (ℕ → Bool)) (i : ℕ) (ms : List ℕ)
    → 3 ≤ length ms
    → HasQuietRound rounds
    → Returns (lock_first rounds i ms)
unfolding lock_first
lock_first-Returns [] i ms three q = absurd q
lock_first-Returns (free ∷ rounds) zero (m0 ∷ m1 ∷ m2 ∷ mn) three q =
    round-Returns free m0 (m1 ∷ m2 ∷ mn) _ _ (try_lock-Outcome free m1 m2 mn) (
      sooner free rounds _ q
        (λ i later. lock_first-Returns rounds (i + 1) (m0 ∷ m1 ∷ m2 ∷ mn) three later))
lock_first-Returns (free ∷ rounds) (suc zero) (m0 ∷ m1 ∷ m2 ∷ mn) three q =
    round-Returns free m1 (m2 ∷ (mn ++ (m0 ∷ []))) _ _ (round_list-Outcome free m2 m0 mn) (
      sooner free rounds _ q (λ i later.
        lock_first-Returns rounds (if i == length mn + 1 then 0 else i + 2) (m0 ∷ m1 ∷ m2 ∷ mn)
          three later))
lock_first-Returns (free ∷ rounds) (suc (suc i)) (m0 ∷ m1 ∷ m2 ∷ mn) three q =
    lock_first-Returns (free ∷ rounds) i (m2 ∷ (mn ++ (m0 ∷ m1 ∷ [])))
      (omega (arith, length-append mn (m0 ∷ m1 ∷ []))) q
lock_first-Returns (free ∷ rounds) i (m0 ∷ m1 ∷ []) three q = absurd (omega arith)
lock_first-Returns (free ∷ rounds) i (m0 ∷ []) three q = absurd (omega arith)
lock_first-Returns (free ∷ rounds) i [] three q = absurd (omega arith)

lock_two-Returns :
    (rounds : List (ℕ → Bool)) (m0 m1 : ℕ) → HasQuietRound rounds → Returns (lock_two rounds m0 m1)
unfolding lock_two
lock_two-Returns [] m0 m1 q = absurd q
lock_two-Returns (free ∷ rounds) m0 m1 (inl quiet) = rw (quiet m1, Returns) tt
lock_two-Returns (free ∷ rounds) m0 m1 (inr later) = elim (Bool-cases (free m1)) [
  | inl free1 ↦ rw (free1, Returns) tt
  | inr busy1 ↦
      rw (busy1, Returns)
        (after-Returns (locked m0 ∷ unlocked m0 ∷ []) (lock_two rounds m1 m0)
          (lock_two-Returns rounds m1 m0 later))
]

-- `lock` of two or more mutexes returns if some round finds all the others free.
pub lock-Returns :
    (rounds : List (ℕ → Bool)) (m0 m1 : ℕ) (ms : List ℕ)
    → HasQuietRound rounds
    → Returns (lock rounds (m0 ∷ m1 ∷ ms))
unfolding lock
lock-Returns rounds m0 m1 [] q = lock_two-Returns rounds m0 m1 q
lock-Returns rounds m0 m1 (m2 ∷ mn) q =
    lock_first-Returns rounds 0 (m0 ∷ m1 ∷ m2 ∷ mn) (omega arith) q
