-- ===== src/MultiLock/Guards.antt =====
-- stdlib/_mutex.hpp, `lock_guard`, and stdlib/mutex.hpp, `scoped_lock` of none, one and several mutexes:
-- the guards of one block.
use mathlib.Core.Path.{subst}
use synchronization_library.Prelude.{
  ℕ, ◌+◌, ◌-◌, ◌≡◌, arith, Bool, Option, none, some, List, [], ◌∷◌, ◌++◌,
}
use synchronization_library.MultiLock.Defs.{Event, locked, unlocked, replay, after, lock, unlock}
use synchronization_library.MultiLock.TryLock.{replay-append}
use synchronization_library.MultiLock.Lock.{count, count-append, Takes, lock-Takes, unlock-count}

-- By the constructor. `rounds` is as for `lock`.
pub data Guard : Type 0 where
  lock_guard adopt_guard : (mutex : ℕ) → Guard
  scoped_lock : (rounds : List (ℕ → Bool)) (mutexes : List ℕ) → Guard
  adopt_scoped : (mutexes : List ℕ) → Guard

-- The calls that the constructor makes; `none` as for `lock`.
unfoldable pub construct : Guard → Option (List Event)
construct (lock_guard m) = some (locked m ∷ [])
construct (adopt_guard m) = some []
construct (scoped_lock rounds []) = some []
construct (scoped_lock rounds (m ∷ [])) = some (locked m ∷ [])
construct (scoped_lock rounds (m0 ∷ m1 ∷ ms)) = lock rounds (m0 ∷ m1 ∷ ms)
construct (adopt_scoped ms) = some []

-- The destructor of `scoped_lock`.
abbrev release : List ℕ → List Event
release [] = []
release (m ∷ []) = unlocked m ∷ []
release (m0 ∷ m1 ∷ ms) = unlock (m0 ∷ m1 ∷ ms)

unfoldable pub destroy : Guard → List Event
destroy (lock_guard m) = unlocked m ∷ []
destroy (adopt_guard m) = unlocked m ∷ []
destroy (scoped_lock rounds ms) = release ms
destroy (adopt_scoped ms) = release ms

abbrev then_enter : Option (List Event) → Option (List Event) → Option (List Event)
then_enter none later = none
then_enter (some events) later = after events later

-- The guards of a block are constructed in order, and destroyed in the opposite one.
unfoldable pub enter : List Guard → Option (List Event)
unfolding construct
enter [] = some []
enter (g ∷ gs) = then_enter (construct g) (enter gs)

unfoldable pub leave : List Guard → List Event
unfolding destroy
leave [] = []
leave (g ∷ gs) = leave gs ++ destroy g

-- The mutexes that a guard locks, and those that it finds locked.
abbrev locks : Guard → List ℕ
locks (lock_guard m) = m ∷ []
locks (scoped_lock rounds ms) = ms
locks g = []

abbrev adopts : Guard → List ℕ
adopts (adopt_guard m) = m ∷ []
adopts (adopt_scoped ms) = ms
adopts g = []

abbrev pub locking : List Guard → List ℕ
locking [] = []
locking (g ∷ gs) = locks g ++ locking gs

abbrev pub adopting : List Guard → List ℕ
adopting [] = []
adopting (g ∷ gs) = adopts g ++ adopting gs

-- The events change nothing in what is held.
abbrev pub IsBalanced : List Event → Type 0
IsBalanced events = (m : ℕ) (held : List ℕ) → count m (replay events held) ≡ count m held

construct-Takes : (g : Guard) → Takes (locks g) (construct g)
unfolding construct
construct-Takes (lock_guard x) = λ m held. ground arith
construct-Takes (adopt_guard x) = λ m held. omega arith
construct-Takes (scoped_lock rounds []) = λ m held. omega arith
construct-Takes (scoped_lock rounds (x ∷ [])) = λ m held. ground arith
construct-Takes (scoped_lock rounds (m0 ∷ m1 ∷ ms)) = lock-Takes rounds (m0 ∷ m1 ∷ ms)
construct-Takes (adopt_scoped ms) = λ m held. omega arith

then-Takes :
    (xs ys : List ℕ) (first later : Option (List Event))
    → Takes xs first
    → Takes ys later
    → Takes (xs ++ ys) (then_enter first later)
then-Takes xs ys none later t u = tt
then-Takes xs ys (some events) none t u = tt
then-Takes xs ys (some events) (some more) t u = λ m held.
    rw (replay-append events more held)
      (omega (arith, u m (replay events held), t m held, count-append m xs ys))

enter-Takes : (gs : List Guard) → Takes (locking gs) (enter gs)
unfolding enter
enter-Takes [] = λ m held. omega arith
enter-Takes (g ∷ gs) =
    then-Takes (locks g) (locking gs) (construct g) (enter gs) (construct-Takes g) (enter-Takes gs)

release-count :
    (m : ℕ) (ms held : List ℕ) → count m (replay (release ms) held) ≡ count m held - count m ms
unfolding unlock
release-count m [] held = omega arith
release-count m (x ∷ []) held = unlock-count m (x ∷ []) held
release-count m (m0 ∷ m1 ∷ ms) held = unlock-count m (m0 ∷ m1 ∷ ms) held

destroy-count :
    (m : ℕ) (g : Guard) (held : List ℕ)
    → count m (replay (destroy g) held) ≡ count m held - (count m (locks g) + count m (adopts g))
unfolding destroy
destroy-count m (lock_guard x) held = omega (arith, release-count m (x ∷ []) held)
destroy-count m (adopt_guard x) held = omega (arith, release-count m (x ∷ []) held)
destroy-count m (scoped_lock rounds ms) held = omega (arith, release-count m ms held)
destroy-count m (adopt_scoped ms) held = omega (arith, release-count m ms held)

leave-count :
    (m : ℕ) (gs : List Guard) (held : List ℕ)
    → count m (replay (leave gs) held)
      ≡ count m held - (count m (locking gs) + count m (adopting gs))
unfolding leave
leave-count m [] held = omega arith
leave-count m (g ∷ gs) held = rw (replay-append (leave gs) (destroy g) held) (
    omega (
      arith,
      destroy-count m g (replay (leave gs) held),
      leave-count m gs held,
      count-append m (locks g) (locking gs),
      count-append m (adopts g) (adopting gs),
    ))

-- For any guards of a block, locking or adopting, that are constructed in order, whatever other threads
-- hold meanwhile: when the constructors have returned, each mutex is held once more for each guard that
-- locks it. When the guards are destroyed after a body that changes nothing, it is held as before, but
-- for what the guards have adopted.
pub guards-balance :
    (gs : List Guard) (taken body : List Event)
    → enter gs ≡ some taken
    → IsBalanced body
    → (m : ℕ) (held : List ℕ)
    → (count m (replay taken held) ≡ count m (locking gs) + count m held)
      × (count m (replay (taken ++ (body ++ leave gs)) held) ≡ count m held - count m (adopting gs))
guards-balance gs taken body returned balanced m held = (
  entered,
  rw
      (
        replay-append taken (body ++ leave gs) held,
        replay-append body (leave gs) (replay taken held),
      )
      (omega (
        arith,
        leave-count m gs (replay body (replay taken held)),
        balanced m (replay taken held),
        entered,
      )),
)
  where
    entered : count m (replay taken held) ≡ count m (locking gs) + count m held
    entered = subst (Takes (locking gs)) returned (enter-Takes gs) m held
