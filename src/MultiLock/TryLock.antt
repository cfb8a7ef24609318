-- ===== src/MultiLock/TryLock.antt =====
-- stdlib/mutex.hpp: `try_lock` of several mutexes takes all of them or none.
use synchronization_library.Prelude.{
  ℕ, suc, ◌+◌, ◌≡◌, refl, ap, ◌∙◌, arith, Bool, true, false, some, List, [], ◌∷◌, ◌++◌, get_elem?,
  take, map, Bool-cases, inl, inr,
}
use synchronization_library.MultiLock.Defs.{
  Event, locked, unlocked, remove, replay, TryResult, all_locked, failed, under_lock, try_lock,
}

-- Every mutex of the list was free when it was tried.
abbrev pub AllFree : (ℕ → Bool) → List ℕ → Type 0
AllFree free [] = Unit
AllFree free (m ∷ ms) = (free m ≡ true) × AllFree free ms

pub replay-append :
    (xs ys : List Event) (held : List ℕ) → replay (xs ++ ys) held ≡ replay ys (replay xs held)
replay-append [] ys held = refl
replay-append (locked m ∷ xs) ys held = replay-append xs ys (m ∷ held)
replay-append (unlocked m ∷ xs) ys held = replay-append xs ys (remove m held)

pub replay-bracket :
    (m : ℕ) (events : List Event) (held : List ℕ)
    → ((h : List ℕ) → replay events h ≡ h)
    → replay (locked m ∷ (events ++ (unlocked m ∷ []))) held ≡ held
replay-bracket m events held none_left =
    replay-append events (unlocked m ∷ []) (m ∷ held) ∙ rw (none_left (m ∷ held)) (ground arith)

-- What `try_lock` answers of `ms`, and what it leaves locked.
abbrev pub Outcome : (ℕ → Bool) → List ℕ → TryResult × List Event → Type 0
Outcome free ms (all_locked, events) = AllFree free ms × (events ≡ map locked ms)
Outcome free ms (failed k, events) =
    (m : ℕ) × (get_elem? ms k ≡ some m)
    × (free m ≡ false)
    × AllFree free (take k ms)
    × ((held : List ℕ) → replay events held ≡ held)

under_lock-Outcome :
    (free : ℕ → Bool) (m0 : ℕ) (ms : List ℕ) (r : TryResult × List Event)
    → free m0 ≡ true
    → Outcome free ms r
    → Outcome free (m0 ∷ ms) (under_lock m0 r)
under_lock-Outcome free m0 ms (all_locked, events) is_free o =
    ((is_free, o.0), ap (λ t. locked m0 ∷ t) o.1)
under_lock-Outcome free m0 ms (failed k, events) is_free (m, at, busy, before, kept) =
    let next : k + 1 ≡ suc k = omega arith in
    rw next (m, at, busy, (is_free, before), λ held. replay-bracket m0 events held kept)

-- `try_lock` of two and more mutexes, whatever other threads hold. If it answers -1, every mutex was
-- free and just these are now locked, in order. If it answers k, the k-th is the first that was not
-- free, and whatever was locked on the way is unlocked again.
pub try_lock-Outcome :
    (free : ℕ → Bool) (m0 m1 : ℕ) (ms : List ℕ)
    → Outcome free (m0 ∷ m1 ∷ ms) (try_lock free (m0 ∷ m1 ∷ ms))
unfolding try_lock
try_lock-Outcome free m0 m1 [] = elim (Bool-cases (free m0)) [
  | inl free0 ↦ elim (Bool-cases (free m1)) [
    | inl free1 ↦ rw (free0, free1, Outcome) ((free0, (free1, tt)), refl)
    | inr busy1 ↦
        rw (free0, busy1, Outcome)
          (m1, refl, busy1, (free0, tt), λ held. replay-bracket m0 [] held (λ h. refl))
  ]
  | inr busy0 ↦ rw (busy0, Outcome) (m0, refl, busy0, tt, λ held. refl)
]
try_lock-Outcome free m0 m1 (m2 ∷ mn) = elim (Bool-cases (free m0)) [
  | inl free0 ↦
      rw (free0, Outcome)
        (under_lock-Outcome free m0 (m1 ∷ m2 ∷ mn) _ free0 (try_lock-Outcome free m1 m2 mn))
  | inr busy0 ↦ rw (busy0, Outcome) (m0, refl, busy0, tt, λ held. refl)
]
