-- ===== src/Thread/Owners.antt =====
-- stdlib/_thread.hpp, class `thread`: who has the handle of a thread.
use mathlib.Core.Path.{subst}
use synchronization_library.Prelude.{
  ℕ, ◌≤◌, ◌⊎◌, ◌<◌, ◌≡◌, refl, ap, arith, Bool, true, not, ◌&&◌, List, [], ◌∷◌, ◌==◌, if◌then◌else◌,
  Bool-cases, inl, inr,
}
use synchronization_library.Threads.{update, total, total-update, total-eq-zero}
use synchronization_library.Thread.Base.{
  Native, unborn, running, finished, joined, detached, ThreadObjects, Outcome, ok, waits,
  terminated, undefined_call, refused, then_on, Call, construct, move_construct, move_assign, swap,
  destroy, join, detach, is_null, joinable, construct_fails, ends, is_finished, is_detached, let_go,
  detach_native, end_native, sync_thread_join, is_unused, is_running, set_handle, set_native,
  perform, perform_all, initial,
}

-- Whether an object with this handle has the thread h.
abbrev pub has : ℕ → ℕ → ℕ
has h handle = if handle == h then 1 else 0

-- How many objects have the handle of such a thread.
abbrev pub owners : Native → ℕ
owners unborn = 0
owners running = 1
owners finished = 1
owners joined = 0
owners detached = 1

-- At least so many, and just so many if the handle is not one of a detached thread that has ended.
abbrev pub Owned : ℕ → ThreadObjects → Type 0
Owned n t =
    (h : ℕ)
    → 0 < h
    → (owners (t.native h) ≤ total (has h) n t.handle)
      × ((t.stale h ≡ true) ⊎ (total (has h) n t.handle ≡ owners (t.native h)))

abbrev pub Kept : ℕ → Outcome ThreadObjects → Type 0
Kept n (ok t) = Owned n t
Kept n o = Unit

abbrev pub IsWithin : ℕ → Call → Type 0
IsWithin n (construct i new) = i < n
IsWithin n (move_construct i j) = (i < n) × (j < n)
IsWithin n (move_assign i j) = (i < n) × (j < n)
IsWithin n (swap i j) = (i < n) × (j < n)
IsWithin n (destroy i) = i < n
IsWithin n (join i) = i < n
IsWithin n (detach i) = i < n
IsWithin n (construct_fails i) = i < n
IsWithin n (ends h) = Unit

-- Where i has no handle, it takes over that of j.
pub taken-Owned :
    (n i j : ℕ) (t : ThreadObjects)
    → i < n
    → j < n
    → t.handle i ≡ 0
    → Owned n t
    → Owned n (set_handle i (t.handle j) (set_handle j 0 t))
taken-Owned n i j t i_lt j_lt free own h pos = ground (
  arith,
  own h pos,
  total-update (has h) n t.handle j 0 j_lt,
  total-update (has h) n (update t.handle j 0) i (t.handle j) i_lt,
  free,
)

pub swapped-Owned :
    (n i j : ℕ) (t : ThreadObjects)
    → i < n
    → j < n
    → Owned n t
    → Owned n (set_handle j (t.handle i) (set_handle i (t.handle j) t))
swapped-Owned n i j t i_lt j_lt own h pos = rw same (own h pos)
  where
    same :
        total (has h) n (update (update t.handle i (t.handle j)) j (t.handle i))
        ≡ total (has h) n t.handle
    same = omega (
      arith,
      total-update (has h) n t.handle i (t.handle j) i_lt,
      total-update (has h) n (update t.handle i (t.handle j)) j (t.handle i) j_lt,
      ap (has h) old,
    )
      where
        old : update t.handle i (t.handle j) j ≡ t.handle j
        old = elim (Bool-cases (i == j)) [ inl here ↦ rw here refl | inr other ↦ rw other refl ]

-- The object i has the handle h, which is not null, and loses it as the thread h is joined.
pub joined-Owned :
    (n i : ℕ) (t : ThreadObjects)
    → i < n
    → is_finished (t.native (t.handle i)) ≡ true
    → Owned n t
    → Owned n (set_handle i 0 (set_native (t.handle i) joined t))
joined-Owned n i t i_lt runs own h pos =
    ground (arith, own h pos, total-update (has h) n t.handle i 0 i_lt)

-- A thread that an object has goes on to a state in which one still has it.
pub native-Owned :
    (n h : ℕ) (next : Native) (t : ThreadObjects)
    → owners (t.native h) ≡ 1
    → owners next ≡ 1
    → Owned n t
    → Owned n (set_native h next t)
native-Owned n h next t before after own k pos = ground (arith, own k pos, before, after)

pub let_go-Owned : (n h : ℕ) (t : ThreadObjects) → Owned n t → Owned n (let_go h t)
let_go-Owned n h t own k pos = ground (arith, own k pos)

pub made-Owned :
    (n i new : ℕ) (t : ThreadObjects)
    → i < n
    → (is_null (t.handle i) && (not (is_null new) && is_unused (t.native new))) ≡ true
    → Owned n t
    → Owned n (set_handle i new (set_native new running t))
made-Owned n i new t i_lt fresh own h pos =
    ground (arith, own h pos, total-update (has h) n t.handle i new i_lt)

sync_join-Owned : (n i : ℕ) (t : ThreadObjects) → i < n → Owned n t → Kept n (sync_thread_join i t)
sync_join-Owned n i t i_lt own = elim (Bool-cases (is_finished (t.native (t.handle i)))) [
  | inl over ↦ rw (over, Kept) (joined-Owned n i t i_lt over own)
  | inr going ↦ elim (Bool-cases (is_running (t.native (t.handle i)))) [
    | inl runs ↦ rw (going, runs, Kept) tt
    | inr none_there ↦ rw (going, none_there, Kept) tt
  ]
]

detach_native-Owned : (n h : ℕ) (t : ThreadObjects) → Owned n t → Kept n (detach_native h t)
detach_native-Owned n h t own = elim (Bool-cases (is_running (t.native h))) [
  | inl runs ↦ rw (runs, Kept) (native-Owned n h detached t (ground (arith, runs)) refl own)
  | inr stands ↦ elim (Bool-cases (is_finished (t.native h))) [
    | inl over ↦ rw (stands, over, Kept) (let_go-Owned n h t own)
    | inr none_there ↦ rw (stands, none_there, Kept) tt
  ]
]

end_native-Owned : (n h : ℕ) (t : ThreadObjects) → Owned n t → Kept n (end_native h t)
end_native-Owned n h t own = elim (Bool-cases (is_running (t.native h))) [
  | inl runs ↦ rw (runs, Kept) (native-Owned n h finished t (ground (arith, runs)) refl own)
  | inr stands ↦ elim (Bool-cases (is_detached (t.native h))) [
    | inl alone ↦ rw (stands, alone, Kept) (let_go-Owned n h t own)
    | inr none_there ↦ rw (stands, none_there, Kept) tt
  ]
]

pub perform-Owned :
    (n : ℕ) (asserts : Bool) (c : Call) (t : ThreadObjects)
    → IsWithin n c
    → Owned n t
    → Kept n (perform asserts c t)
unfolding perform
perform-Owned n asserts (construct i new) t i_lt own =
    elim (Bool-cases (is_null (t.handle i) && (not (is_null new) && is_unused (t.native new)))) [
      | inl fresh ↦ rw (fresh, Kept) (made-Owned n i new t i_lt fresh own)
      | inr used ↦ rw (used, Kept) tt
    ]
perform-Owned n asserts (move_construct i j) t (i_lt, j_lt) own =
    elim (Bool-cases (is_null (t.handle i))) [
      | inl free ↦ rw (free, Kept) (taken-Owned n i j t i_lt j_lt (ground (arith, free)) own)
      | inr bound ↦ rw (bound, Kept) tt
    ]
perform-Owned n asserts (move_assign i j) t (i_lt, j_lt) own = elim (Bool-cases (joinable i t)) [
  | inl bound ↦ rw (bound, Kept) tt
  | inr free ↦ rw (free, Kept) (taken-Owned n i j t i_lt j_lt (ground (arith, free)) own)
]
perform-Owned n asserts (swap i j) t (i_lt, j_lt) own = swapped-Owned n i j t i_lt j_lt own
perform-Owned n asserts (destroy i) t i_lt own = elim (Bool-cases (joinable i t)) [
  | inl bound ↦ rw (bound, Kept) tt
  | inr free ↦ rw (free, Kept) own
]
perform-Owned n asserts (construct_fails i) t i_lt own = ground arith
perform-Owned n asserts (join i) t i_lt own = elim (Bool-cases (asserts && not (joinable i t))) [
  | inl wrong ↦ rw (wrong, Kept) tt
  | inr right ↦ rw (right, Kept) (sync_join-Owned n i t i_lt own)
]
perform-Owned n asserts (detach i) t i_lt own = elim (Bool-cases (asserts && not (joinable i t))) [
  | inl wrong ↦ rw (wrong, Kept) tt
  | inr right ↦ rw (right, Kept) (detach_native-Owned n (t.handle i) t own)
]
perform-Owned n asserts (ends h) t i_lt own = end_native-Owned n h t own

abbrev pub AreWithin : ℕ → List Call → Type 0
AreWithin n [] = Unit
AreWithin n (c ∷ cs) = IsWithin n c × AreWithin n cs

then_on-Kept :
    (n : ℕ) (o : Outcome ThreadObjects) (f : ThreadObjects → Outcome ThreadObjects)
    → Kept n o
    → ((t : ThreadObjects) → Owned n t → Kept n (f t))
    → Kept n (then_on o f)
then_on-Kept n (ok t) f own next = next t own
then_on-Kept n (waits t) f own next = tt
then_on-Kept n terminated f own next = tt
then_on-Kept n undefined_call f own next = tt
then_on-Kept n refused f own next = tt

perform_all-Owned :
    (n : ℕ) (asserts : Bool) (cs : List Call) (t : ThreadObjects)
    → AreWithin n cs
    → Owned n t
    → Kept n (perform_all asserts cs t)
unfolding perform_all
perform_all-Owned n asserts [] t within own = own
perform_all-Owned n asserts (c ∷ cs) t (in_range, within) own =
    then_on-Kept n (perform asserts c t) (perform_all asserts cs)
      (perform-Owned n asserts c t in_range own)
      (λ t' own'. perform_all-Owned n asserts cs t' within own')

-- However a program makes, moves, swaps, joins, detaches and destroys `n` objects of `thread`, with or
-- without the assertions, as long as it goes on, and whichever unused handles the system gives: a thread
-- that is not joined yet, running or ended, or that runs detached has at least one object with its
-- handle, so that the object of a detached thread stays joinable. It has exactly one, and a handle with
-- no thread has none, unless a detached thread with this handle has ended.
pub handle_owners :
    (n : ℕ) (asserts : Bool) (cs : List Call) (t : ThreadObjects)
    → AreWithin n cs
    → perform_all asserts cs initial ≡ ok t
    → (h : ℕ) → 0 < h
    → (owners (t.native h) ≤ total (has h) n t.handle)
      × ((t.stale h ≡ true) ⊎ (total (has h) n t.handle ≡ owners (t.native h)))
handle_owners n asserts cs t within done =
    subst (Kept n) done (perform_all-Owned n asserts cs initial within start)
  where
    start : Owned n initial
    start h pos =
        let none : total (has h) n initial.handle ≡ 0 =
          total-eq-zero (has h) n initial.handle (λ i lt. ground arith) in
        (omega arith, inr none)
