-- ===== src/Locks/Balance.antt =====
-- The holds of a thread against the lock objects that own one.
use synchronization_library.Prelude.{
  ℕ, ◌+◌, ◌<◌, ◌≡◌, refl, arith, Bool, true, false, Option, none, some, List, [], ◌∷◌, inl, inr,
  Bool-cases, ◌==◌, if◌then◌else◌,
}
use synchronization_library.Threads.{update, total, total-update}
use synchronization_library.Locks.Handle.{
  Handle, lock_on, no_lock, is_no_lock, bit, take, give, unlock_one, destroy_one, LockObjects, put,
  put_held, put_both, perform_all,
}

-- 1 if the object owns mutex m.
abbrev pub owned : ℕ → Handle → ℕ
owned m (lock_on none owns) = 0
owned m (lock_on (some k) owns) = if k == m then bit owns else 0

abbrev pub at : ℕ → ℕ → ℕ
at k m = if k == m then 1 else 0

-- Where `lost` holds on m lost their object in a call, and `spent` holds were given back or told of by
-- an object that were not the object's own.
abbrev pub Balanced : (n m lost spent : ℕ) → LockObjects → LockObjects → Type 0
Balanced n m lost spent s s' =
    s'.held m + spent + total (owned m) n s.objects ≡ s.held m + lost + total (owned m) n s'.objects

abbrev pub After : (n m lost spent : ℕ) → LockObjects → Option LockObjects → Type 0
After n m lost spent s none = Unit
After n m lost spent s (some s') = Balanced n m lost spent s s'

-- The sum of what each call of a run counts.
abbrev pub sum :
    {C : Type 0}
    → (C → LockObjects → Option LockObjects)
    → (C → LockObjects → ℕ)
    → List C
    → LockObjects
    → ℕ
sum perform count [] s = 0
sum perform count (c ∷ cs) s = elim (perform c s) [
  | none ↦ 0
  | some s' ↦ count c s + sum perform count cs s'
]

abbrev pub AllWithin : {C : Type 0} → (C → Type 0) → List C → Type 0
AllWithin IsWithin [] = Unit
AllWithin IsWithin (c ∷ cs) = IsWithin c × AllWithin IsWithin cs

none_some : {A B : Type 0} {a : A} → none ≡ some a → B
none_some eq = cc

module _ {C : Type 0} (perform : C → LockObjects → Option LockObjects) (IsWithin : C → Type 0)
    (lost spent : C → LockObjects → ℕ) (n m : ℕ) where
  run-step :
      (c : C) (cs : List C) (s t : LockObjects) (o : Option LockObjects)
      → perform c s ≡ o
      → ((u : LockObjects)
          → perform_all perform cs u ≡ some t
          → Balanced n m (sum perform lost cs u) (sum perform spent cs u) u t)
      → After n m (lost c s) (spent c s) s o
      → perform_all perform (c ∷ cs) s ≡ some t
      → Balanced n m (sum perform lost (c ∷ cs) s) (sum perform spent (c ∷ cs) s) s t
  run-step c cs s t none eq rest one ran = none_some (rw (eq, perform_all) at ran)
  run-step c cs s t (some u) eq rest one ran =
      rw (eq, sum) (omega (arith, one, rest u (rw (eq, perform_all) at ran)))

  -- Calls that are balanced one by one are so together.
  pub run-Balanced :
      ((c : C) (s : LockObjects) → IsWithin c → After n m (lost c s) (spent c s) s (perform c s))
      → (cs : List C) (s t : LockObjects) → AllWithin IsWithin cs
      → perform_all perform cs s ≡ some t
      → Balanced n m (sum perform lost cs s) (sum perform spent cs s) s t
  run-Balanced each [] s t all ran = ground (arith, ran)
  run-Balanced each (c ∷ cs) s t (here, later) ran =
      run-step c cs s t (perform c s) refl (λ u ran'. run-Balanced each cs u t later ran')
        (each c s here) ran

abbrev pub Moves : (n m : ℕ) → (ℕ → Handle) → ℕ → Handle → Type 0
Moves n m objects i p =
    (l : Handle)
    → total (owned m) n (update objects i l) + owned m p ≡ total (owned m) n objects + owned m l

pub moves : (n m : ℕ) (objects : ℕ → Handle) (i : ℕ) → i < n → Moves n m objects i (objects i)
moves n m objects i lt l = total-update (owned m) n objects i l lt

module _ (n m i : ℕ) (s : LockObjects) where
  pub take-Balanced :
      (k : ℕ) (ok : Bool) (lost : ℕ) (p l : Handle)
      → Moves n m s.objects i p
      → owned m p + (if k == m then bit ok else 0) ≡ lost + owned m l
      → After n m lost 0 s (put i s (some (take k ok s.held, l)))
  take-Balanced k ok lost p l mv eq = let f = mv l in ground (arith, eq)

  pub unlock_one-Balanced :
      (k : ℕ) (owns : Bool)
      → Moves n m s.objects i (lock_on (some k) owns)
      → After n m 0
          (if owns then 0 else at k m)
          s
          (put i s (unlock_one s.held (lock_on (some k) owns)))
  unlock_one-Balanced k owns mv = elim (Bool-cases (s.held k == 0)) [
    | inl z ↦ rw (z, After) tt
    | inr nz ↦ rw (nz, After) (let f = mv (lock_on (some k) false) in ground (arith, nz))
  ]

  pub destroy_one-Balanced :
      (p : Handle) → Moves n m s.objects i p → After n m 0 0 s (put i s (destroy_one s.held p))
  destroy_one-Balanced (lock_on (some k) true) mv = elim (Bool-cases (s.held k == 0)) [
    | inl z ↦ rw (z, After) tt
    | inr nz ↦ rw (nz, After) (let f = mv no_lock in ground (arith, nz))
  ]
  destroy_one-Balanced (lock_on (some k) false) mv = let f = mv no_lock in ground arith
  destroy_one-Balanced (lock_on none true) mv = tt
  destroy_one-Balanced (lock_on none false) mv = let f = mv no_lock in ground arith

  pub release-Balanced :
      (p : Handle)
      → Moves n m s.objects i p
      → After n m (owned m p) 0 s (put i s (some (s.held, no_lock)))
  release-Balanced p mv = let f = mv no_lock in ground arith

  pub unlock_by_hand-Balanced :
      (k : ℕ) → After n m 0 (at k m) s (put_held s (give k s.held no_lock))
  unlock_by_hand-Balanced k = elim (Bool-cases (s.held k == 0)) [
    | inl z ↦ rw (z, After) tt
    | inr nz ↦ rw (nz, After) (ground (arith, nz))
  ]

-- Object i gets the value l, and object j gets other.
pub put_both-total :
    (n m i j : ℕ) (l other : Handle) (s : LockObjects)
    → i < n
    → j < n
    → total (owned m) n (put_both i j l other s).objects
        + (owned m (s.objects j) + owned m (if j == i then other else s.objects i))
      ≡ total (owned m) n s.objects + (owned m other + owned m l)
put_both-total n m i j l other s i_lt j_lt = omega (
  arith,
  total-update (owned m) n s.objects j other j_lt,
  total-update (owned m) n (update s.objects j other) i l i_lt,
)

pub is_no_lock-owned : (m : ℕ) (l : Handle) → is_no_lock l ≡ true → owned m l ≡ 0
is_no_lock-owned m (lock_on none owns) is = refl
is_no_lock-owned m (lock_on (some k) owns) is = ground (arith, is)
