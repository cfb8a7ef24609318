-- ===== src/Locks/Scope.antt =====
-- stdlib/_mutex.hpp, class `unique_lock`: what a mutex is left with at the end of a scope.
use synchronization_library.Prelude.{ℕ, ◌+◌, ◌≡◌, arith, true, Option, none, some, List, [], ◌∷◌}
use synchronization_library.Locks.Handle.{Handle, no_lock, Held}
use synchronization_library.Locks.Unique.{
  Use, construct, construct_deferred, destroy, lock, unlock, try_lock_timed, step,
}

-- The calls on one object, in order.
abbrev pub scope : List Use → Option (Held × Handle) → Option (Held × Handle)
scope [] o = o
scope (call ∷ calls) none = none
scope (call ∷ calls) (some (h, l)) = scope calls (step call h l)

-- How often a mutex is held after the calls, if they are allowed.
abbrev pub holds_after : ℕ → Option (Held × Handle) → Option ℕ
holds_after m none = none
holds_after m (some (h, l)) = some (h m)

-- A scope round a `unique_lock` gives the mutex back if the constructor locked it, or a timed try after
-- a deferred construction, or if `lock` is followed by `unlock`. After `lock` alone the destructor
-- leaves the mutex locked once more.
pub scope_end :
    (h : Held) (m : ℕ)
    → let scoped = λ (calls : List Use). holds_after m (scope calls (some (h, no_lock))) in
      (scoped (construct m ∷ destroy ∷ []) ≡ some (h m))
      × (scoped (construct_deferred m ∷ try_lock_timed true ∷ destroy ∷ []) ≡ some (h m))
      × (scoped (construct_deferred m ∷ lock ∷ unlock ∷ destroy ∷ []) ≡ some (h m))
      × (scoped (construct_deferred m ∷ lock ∷ destroy ∷ []) ≡ some (h m + 1))
unfolding step
scope_end h m = (ground arith, ground arith, ground arith, ground arith)
