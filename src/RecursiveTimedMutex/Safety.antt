-- ===== src/RecursiveTimedMutex/Safety.antt =====
-- stdlib/mutex.hpp, class `recursive_timed_mutex`: one thread owns it, as often as `count_` says.
use synchronization_library.Prelude.{
  ℕ, ◌+◌, ◌-◌, ◌%◌, ◌^◌, ◌<◌, ◌≡◌, ◌≢◌, refl, arith, true, false, inl, inr, Bool-cases, ◌==◌, ◌||◌,
  ℕ_discrete,
}
use synchronization_library.Threads.{
  System, Reach, Reach-induction, After, update, total-update, total-eq-zero,
}
use synchronization_library.RecursiveTimedMutex.{
  RecursiveTimedMutex, max_count, Owner, Call, call_lock, call_unlock, call_try_lock,
  call_try_lock_until, step, initial, unlock,
}
use synchronization_library.RecursiveTimedMutex.Invariant.{
  depth_of, Inv, deeper-Inv, same-Inv, less-Inv, again-Inv, first-Inv, mover,
}

fits_in : (count : ℕ) → count < max_count → (count + 1) % 2 ^ 64 ≡ count + 1
fits_in count room = omega arith

step-Inv :
    (n : ℕ) (s : System RecursiveTimedMutex Owner) (i : ℕ) (call : Call) (p : Owner)
    → Inv n s
    → i < n
    → s.pc i ≡ p
    → After (Inv n) s i (step true call s.mem p)
unfolding step unlock
step-Inv n s i call_lock p inv lt at =
    let mv = mover n s i p inv lt at in
    elim (Bool-cases (p.self == s.mem.id)) [
      | inl mine ↦ elim (Bool-cases (s.mem.count == max_count)) [
        | inl full ↦ rw (mine, full, After) tt
        | inr room ↦
            rw (mine, room, fits_in s.mem.count (ground (arith, inv.fits, room)), After)
              (again-Inv n s i p inv mv mine room)
      ]
      | inr others ↦ elim (Bool-cases (s.mem.count == 0)) [
        | inl is_free ↦ rw (others, is_free, After) (first-Inv n s i p inv mv is_free)
        | inr held ↦ rw (others, held, After) tt
      ]
    ]
step-Inv n s i (call_try_lock false) p inv lt at = same-Inv n s i p inv (mover n s i p inv lt at) at
step-Inv n s i (call_try_lock true) p inv lt at =
    let mv = mover n s i p inv lt at in
    elim (Bool-cases ((s.mem.count == 0) || (p.self == s.mem.id))) [
      | inl mine ↦ elim (Bool-cases (s.mem.count == max_count)) [
        | inl full ↦ rw (mine, full, After) (same-Inv n s i p inv mv at)
        | inr room ↦
            rw (mine, room, After)
              (deeper-Inv n s i p inv mv (s.mem.count + 1) p.self (ground (arith, inv.fits, room))
                (λ held. ground (arith, mine, held)) refl refl)
      ]
      | inr others ↦ rw (others, After) (same-Inv n s i p inv mv at)
    ]
step-Inv n s i (call_try_lock_until expired) p inv lt at =
    let mv = mover n s i p inv lt at in
    elim (Bool-cases (p.self == s.mem.id)) [
      | inl mine ↦ elim (Bool-cases (s.mem.count == max_count)) [
        | inl full ↦ rw (mine, full, After) (same-Inv n s i p inv mv at)
        | inr room ↦ rw (mine, room, After) (again-Inv n s i p inv mv mine room)
      ]
      | inr others ↦ elim (Bool-cases (s.mem.count == 0)) [
        | inl is_free ↦ rw (others, is_free, After) (first-Inv n s i p inv mv is_free)
        | inr held ↦ elim (Bool-cases expired) [
          | inl over ↦ rw (others, held, over, After) (same-Inv n s i p inv mv at)
          | inr going_on ↦ rw (others, held, going_on, After) tt
        ]
      ]
    ]
step-Inv n s i call_unlock p inv lt at = elim (Bool-cases (p.depth == 0)) [
  | inl outside ↦ rw (outside, After) tt
  | inr inside ↦
      let mv = mover n s i p inv lt at in
      let count = (s.mem.count + 2 ^ 64 - 1) % 2 ^ 64 in
      let deep : 0 < p.depth = ground (arith, inside) in
      let less : count + 1 ≡ s.mem.count = omega (arith, inv.counted, inv.fits, mv.a_depth, deep) in
      elim (Bool-cases (count == 0)) [
        | inl last ↦
            rw (inside, last, After)
              (less-Inv n s i p inv mv count 0 deep less (λ _. refl)
                (λ more. ground (arith, last, more)))
        | inr more ↦
            rw (inside, more, After)
              (less-Inv n s i p inv mv count s.mem.id deep less (λ e. ground (arith, more, e))
                (λ _. refl))
      ]
]

Reach-Inv : (n : ℕ) {s : System RecursiveTimedMutex Owner} → Reach (step true) n initial s → Inv n s
Reach-Inv n r =
    Reach-induction (step true) (Inv n) n (λ u i call p inv lt at. step-Inv n u i call p inv lt at)
      (record {
        counted = omega (arith, total-eq-zero depth_of n initial.pc (λ i lt. refl));
        fits = omega arith;
        free = λ e. refl;
        named = λ i. refl;
        owner = λ i lt deep. absurd (omega arith);
      })
      r

-- However `n` threads use a `recursive_timed_mutex`, with the assertions, time-outs and failing tries
-- included: where a thread holds it, `id_` names that thread, `count_` is how often it holds it, and
-- no other thread holds it.
pub one_owner :
    (n : ℕ) {s : System RecursiveTimedMutex Owner}
    → Reach (step true) n initial s
    → (i j : ℕ) → i < n
    → j < n
    → 0 < (s.pc i).depth
    → i ≢ j
    → (s.mem.id ≡ i + 1) × (s.mem.count ≡ (s.pc i).depth) × ((s.pc j).depth ≡ 0)
one_owner n {s} r i j i_lt j_lt deep ne = (owner i i_lt deep, sum, alone j j_lt ne)
  where
    open (Reach-Inv n r) use {counted, owner}

    alone : (k : ℕ) → k < n → i ≢ k → (s.pc k).depth ≡ 0
    alone k lt other = elim (ℕ_discrete (s.pc k).depth 0) [
      | yes e ↦ e
      | no inside ↦
          absurd (omega (arith, owner k lt (omega (arith, inside)), owner i i_lt deep, other))
    ]

    outside : Owner
    outside = record { self = 0; depth = 0 }

    others : (k : ℕ) → k < n → depth_of (update s.pc i outside k) ≡ 0
    others k lt = elim (ℕ_discrete i k) [
      | yes e ↦ ground (arith, e)
      | no other ↦ ground (arith, other, alone k lt other)
    ]

    sum : s.mem.count ≡ (s.pc i).depth
    sum = omega (
      arith,
      counted,
      total-update depth_of n s.pc i outside i_lt,
      total-eq-zero depth_of n (update s.pc i outside) others,
    )
