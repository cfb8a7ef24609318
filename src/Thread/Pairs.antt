-- ===== src/Thread/Pairs.antt =====
-- stdlib/thread.hpp, class `jthread`: each object has the stop source of its own thread.
use synchronization_library.Prelude.{
  ℕ, ◌⊎◌, ◌<◌, ◌≡◌, refl, arith, Bool, true, false, not, ◌&&◌, Option, none, some, ◌==◌, Bool-cases,
  inl, inr,
}
use synchronization_library.Threads.{update, total, weight-le-total}
use synchronization_library.Thread.Base
use synchronization_library.Thread.Base.{
  Native, unborn, running, finished, joined, detached, ThreadObjects, Outcome, ok, waits,
  terminated, undefined_call, refused, then_on, is_null, joinable, is_unused, is_running,
  is_finished,
}
use synchronization_library.Thread.Owners.{
  has, Owned, taken-Owned, swapped-Owned, joined-Owned, native-Owned, let_go-Owned, made-Owned,
}
use synchronization_library.Thread.Jthread.{
  Jthreads, Call, construct, move_construct, move_assign, swap, destroy, join, detach, request_stop,
  construct_fails, ends, with_threads, stop, stopped, perform,
}

-- Each object that has a thread has the source of its token, but for a handle that may be another's.
abbrev pub Paired : ℕ → (stale : ℕ → Bool) → (handle : ℕ → ℕ) → (ℕ → Option ℕ) → (ℕ → ℕ) → Type 0
Paired n stale handle source token_of =
    (i : ℕ)
    → i < n
    → 0 < handle i
    → stale (handle i) ≡ false
    → source i ≡ some (token_of (handle i))

pub record Inv (n : ℕ) (s : Jthreads) : Type 0 where
  pub own : Owned n s.threads
  pub paired : Paired n s.threads.stale s.threads.handle s.source s.token_of

abbrev pub Kept : ℕ → Outcome Jthreads → Type 0
Kept n (ok s) = Inv n s
Kept n o = Unit

abbrev pub IsWithin : ℕ → Call → Type 0
IsWithin n (construct i new) = i < n
IsWithin n (move_construct i j) = (i < n) × (j < n)
IsWithin n (move_assign i j) = (i < n) × (j < n)
IsWithin n (swap i j) = (i < n) × (j < n)
IsWithin n (destroy i) = i < n
IsWithin n (join i) = i < n
IsWithin n (detach i) = i < n
IsWithin n (request_stop i) = i < n
IsWithin n (construct_fails i) = i < n
IsWithin n (ends h) = Unit

module _ (n : ℕ) (stale : ℕ → Bool) (handle : ℕ → ℕ) (source : ℕ → Option ℕ) (token_of : ℕ → ℕ)
    (paired : Paired n stale handle source token_of) where
  taken-Paired :
      (i j : ℕ)
      → j < n
      → Paired n stale
          (update (update handle j 0) i (handle j))
          (update (update source j none) i (source j))
          token_of
  taken-Paired i j j_lt k lt has_one fresh = elim (Bool-cases (i == k)) [
    | inl here ↦ rw here (paired j j_lt (rw here at has_one) (rw here at fresh))
    | inr other ↦ elim (Bool-cases (j == k)) [
      | inl from ↦ ground (arith, has_one)
      | inr elsewhere ↦
          rw (other, elsewhere)
            (paired k lt (rw (other, elsewhere) at has_one) (rw (other, elsewhere) at fresh))
    ]
  ]

  swapped-Paired :
      (i j : ℕ)
      → i < n
      → j < n
      → Paired n stale
          (update (update handle i (handle j)) j (handle i))
          (update (update source i (source j)) j (source i))
          token_of
  swapped-Paired i j i_lt j_lt k lt has_one fresh = elim (Bool-cases (j == k)) [
    | inl at_j ↦ rw at_j (paired i i_lt (rw at_j at has_one) (rw at_j at fresh))
    | inr not_j ↦ elim (Bool-cases (i == k)) [
      | inl at_i ↦
          rw (not_j, at_i) (paired j j_lt (rw (not_j, at_i) at has_one) (rw (not_j, at_i) at fresh))
      | inr not_i ↦
          rw (not_j, not_i)
            (paired k lt (rw (not_j, not_i) at has_one) (rw (not_j, not_i) at fresh))
    ]
  ]

  ended-Paired : (i : ℕ) → Paired n stale (update handle i 0) source token_of
  ended-Paired i k lt has_one fresh = elim (Bool-cases (i == k)) [
    | inl here ↦ ground (arith, has_one)
    | inr other ↦ rw other (paired k lt (rw other at has_one) (rw other at fresh))
  ]

  -- An object with no handle gives its source up.
  left-Paired : (i : ℕ) → handle i ≡ 0 → Paired n stale handle (update source i none) token_of
  left-Paired i free k lt has_one fresh = elim (Bool-cases (i == k)) [
    | inl here ↦ ground (arith, has_one, free, here)
    | inr other ↦ rw other (paired k lt has_one fresh)
  ]

  made-Paired :
      (i new state : ℕ)
      → (stale new ≡ true) ⊎ (total (has new) n handle ≡ 0)
      → Paired n stale
          (update handle i new)
          (update source i (some state))
          (update token_of new state)
  made-Paired i new state unused k lt has_one fresh = elim (Bool-cases (i == k)) [
    | inl here ↦ rw here (ground arith)
    | inr other ↦ elim (Bool-cases (new == handle k)) [
      | inl same ↦
          absurd (
            ground
              (arith, weight-le-total (has new) n handle k lt, unused, same, rw other at fresh))
      | inr new_one ↦ rw (other, new_one) (paired k lt (rw other at has_one) (rw other at fresh))
    ]
  ]

let_go-Paired :
    (n h : ℕ) (stale : ℕ → Bool) (handle : ℕ → ℕ) (source : ℕ → Option ℕ) (token_of : ℕ → ℕ)
    → Paired n stale handle source token_of
    → Paired n (update stale h true) handle source token_of
let_go-Paired n h stale handle source token_of paired k lt has_one fresh =
    elim (Bool-cases (h == handle k)) [
      | inl same ↦ absurd (ground (arith, same, fresh))
      | inr other ↦ paired k lt has_one (rw other at fresh)
    ]

not_joinable : (i : ℕ) (t : ThreadObjects) → joinable i (Base.set_handle i 0 t) ≡ false
not_joinable i t = ground arith

pub and_false : (b : Bool) → (b && false) ≡ false
and_false true = refl
and_false false = refl

-- What the destructor of an object with a thread that runs leaves.
abbrev pub ended : ℕ → Jthreads → Jthreads
ended i s = record s {
  threads = Base.set_handle i 0 (Base.set_native (s.threads.handle i) joined s.threads);
  source = update s.source i none;
  requested = stopped (s.source i) s.requested;
}

-- Where the thread has ended the destructor comes back; while it runs it waits, with the stop requested.
pub destroy_finished :
    (asserts : Bool) (i : ℕ) (s : Jthreads)
    → joinable i s.threads ≡ true
    → is_finished (s.threads.native (s.threads.handle i)) ≡ true
    → perform asserts (destroy i) s ≡ ok (ended i s)
unfolding perform Base.perform
destroy_finished asserts i s bound over =
    rw (bound, and_false asserts, over)
      (rw (not_joinable i (Base.set_native (s.threads.handle i) joined s.threads)) refl)

pub destroy_running :
    (asserts : Bool) (i : ℕ) (s : Jthreads)
    → joinable i s.threads ≡ true
    → is_finished (s.threads.native (s.threads.handle i)) ≡ false
    → is_running (s.threads.native (s.threads.handle i)) ≡ true
    → perform asserts (destroy i) s ≡ waits (stop i s)
unfolding perform Base.perform
destroy_running asserts i s bound going runs = rw (bound, and_false asserts, going, runs) refl

-- What joining, detaching and the end of a thread keep.
join-Kept :
    (n i : ℕ) (s : Jthreads)
    → i < n
    → Inv n s
    → Kept n (with_threads (Base.sync_thread_join i s.threads) s)
join-Kept n i s i_lt inv = elim (Bool-cases (is_finished (s.threads.native (s.threads.handle i)))) [
  | inl over ↦
      rw (over, Kept)
        (record {
          own = joined-Owned n i s.threads i_lt over inv.own;
          paired = ended-Paired n s.threads.stale s.threads.handle s.source s.token_of inv.paired i;
        })
  | inr going ↦ elim (Bool-cases (is_running (s.threads.native (s.threads.handle i)))) [
    | inl runs ↦ rw (going, runs, Kept) tt
    | inr none_there ↦ rw (going, none_there, Kept) tt
  ]
]

detach-Kept :
    (n h : ℕ) (s : Jthreads) → Inv n s → Kept n (with_threads (Base.detach_native h s.threads) s)
detach-Kept n h s inv = elim (Bool-cases (is_running (s.threads.native h))) [
  | inl runs ↦
      rw (runs, Kept)
        (record {
          own = native-Owned n h detached s.threads (ground (arith, runs)) refl inv.own;
          paired = inv.paired;
        })
  | inr stands ↦ elim (Bool-cases (is_finished (s.threads.native h))) [
    | inl over ↦
        rw (stands, over, Kept)
          (record {
            own = let_go-Owned n h s.threads inv.own;
            paired =
                let_go-Paired n h s.threads.stale s.threads.handle s.source s.token_of inv.paired;
          })
    | inr none_there ↦ rw (stands, none_there, Kept) tt
  ]
]

end-Kept :
    (n h : ℕ) (s : Jthreads) → Inv n s → Kept n (with_threads (Base.end_native h s.threads) s)
end-Kept n h s inv = elim (Bool-cases (is_running (s.threads.native h))) [
  | inl runs ↦
      rw (runs, Kept)
        (record {
          own = native-Owned n h finished s.threads (ground (arith, runs)) refl inv.own;
          paired = inv.paired;
        })
  | inr stands ↦ elim (Bool-cases (Base.is_detached (s.threads.native h))) [
    | inl alone ↦
        rw (stands, alone, Kept)
          (record {
            own = let_go-Owned n h s.threads inv.own;
            paired =
                let_go-Paired n h s.threads.stale s.threads.handle s.source s.token_of inv.paired;
          })
    | inr none_there ↦ rw (stands, none_there, Kept) tt
  ]
]

pub perform-Inv :
    (n : ℕ) (asserts : Bool) (c : Call) (s : Jthreads)
    → IsWithin n c
    → Inv n s
    → Kept n (perform asserts c s)
unfolding perform Base.perform
perform-Inv n asserts (construct i new) s i_lt inv =
    elim (Bool-cases
      (is_null (s.threads.handle i) && (not (is_null new) && is_unused (s.threads.native new)))) [
        | inl fresh ↦
            rw (fresh, Kept)
              (record {
                own = made-Owned n i new s.threads i_lt fresh inv.own;
                paired =
                    made-Paired n s.threads.stale s.threads.handle s.source s.token_of inv.paired i
                      new s.states (unused fresh);
              })
        | inr used ↦ rw (used, Kept) tt
      ]
  where
    unused :
        (is_null (s.threads.handle i) && (not (is_null new) && is_unused (s.threads.native new)))
          ≡ true
        → (s.threads.stale new ≡ true) ⊎ (total (has new) n s.threads.handle ≡ 0)
    unused fresh = ground (arith, fresh, inv.own new)
perform-Inv n asserts (move_construct i j) s (i_lt, j_lt) inv =
    elim (Bool-cases (is_null (s.threads.handle i))) [
      | inl free ↦
          rw (free, Kept)
            (record {
              own = taken-Owned n i j s.threads i_lt j_lt (ground (arith, free)) inv.own;
              paired =
                  taken-Paired n s.threads.stale s.threads.handle s.source s.token_of inv.paired i j
                    j_lt;
            })
      | inr bound ↦ rw (bound, Kept) tt
    ]
perform-Inv n asserts (move_assign i j) s (i_lt, j_lt) inv =
    elim (Bool-cases (joinable i s.threads)) [
      | inl bound ↦ rw (bound, Kept) tt
      | inr free ↦
          rw (free, Kept)
            (record {
              own = taken-Owned n i j s.threads i_lt j_lt (ground (arith, free)) inv.own;
              paired =
                  taken-Paired n s.threads.stale s.threads.handle s.source s.token_of inv.paired i j
                    j_lt;
            })
    ]
perform-Inv n asserts (swap i j) s (i_lt, j_lt) inv = record {
  own = swapped-Owned n i j s.threads i_lt j_lt inv.own;
  paired =
      swapped-Paired n s.threads.stale s.threads.handle s.source s.token_of inv.paired i j i_lt
        j_lt;
}
perform-Inv n asserts (construct_fails i) s i_lt inv =
    elim (Bool-cases (is_null (s.threads.handle i))) [
      | inl free ↦ failed asserts free
      | inr bound ↦ rw (bound, Kept) tt
    ]
  where
    failed :
        (b : Bool) → is_null (s.threads.handle i) ≡ true → Kept n (perform b (construct_fails i) s)
    failed true free = rw (free, Kept) tt
    failed false free = rw (free, Kept) tt
perform-Inv n asserts (destroy i) s i_lt inv = elim (Bool-cases (joinable i s.threads)) [
  | inl bound ↦ elim (Bool-cases (is_finished (s.threads.native (s.threads.handle i)))) [
    | inl over ↦
        rw (destroy_finished asserts i s bound over, Kept)
          (record {
            own = joined-Owned n i s.threads i_lt over inv.own;
            paired =
                left-Paired n s.threads.stale (update s.threads.handle i 0) s.source s.token_of
                  (ended-Paired n s.threads.stale s.threads.handle s.source s.token_of inv.paired i)
                  i (ground arith);
          })
    | inr going ↦ elim (Bool-cases (is_running (s.threads.native (s.threads.handle i)))) [
      | inl runs ↦ rw (destroy_running asserts i s bound going runs, Kept) tt
      | inr none_there ↦ rw (bound, and_false asserts, going, none_there, Kept) tt
    ]
  ]
  | inr free ↦
      rw (free, Kept)
        (record {
          own = inv.own;
          paired =
              left-Paired n s.threads.stale s.threads.handle s.source s.token_of inv.paired i
                (ground (arith, free));
        })
]
perform-Inv n asserts (join i) s i_lt inv =
    elim (Bool-cases (asserts && not (joinable i s.threads))) [
      | inl wrong ↦ rw (wrong, Kept) tt
      | inr right ↦ rw (right, Kept) (join-Kept n i s i_lt inv)
    ]
perform-Inv n asserts (detach i) s i_lt inv =
    elim (Bool-cases (asserts && not (joinable i s.threads))) [
      | inl wrong ↦ rw (wrong, Kept) tt
      | inr right ↦ rw (right, Kept) (detach-Kept n (s.threads.handle i) s inv)
    ]
perform-Inv n asserts (ends h) s i_lt inv = end-Kept n h s inv
perform-Inv n asserts (request_stop i) s i_lt inv = record { own = inv.own; paired = inv.paired }
