-- ===== src/FastSharedMutex/Safety.antt =====
-- sync/mutex_extra.hpp, class `fast_shared_mutex`: a writer is alone.
use synchronization_library.Prelude.{
  ℕ, ◌+◌, ◌^◌, ◌≤◌, ◌<◌, ◌≡◌, ◌≢◌, refl, ap, arith, ◌||◌, ◌==◌, Bool-cases, inl, inr, Option-cases,
}
use synchronization_library.Threads.{
  System, Reach, Reach-induction, After, update, total, total-const, weight-le-total, two-le-total,
}
use synchronization_library.FastSharedMutex.Run.{
  FastSharedMutex, max, is_negative, is_shut, drain, waiters_of, Pc, idle, awaiting, reading,
  leaving, waking, entering, counting, draining, trying, trying_count, failing, writing, admitting,
  releasing, Call, lock_shared, try_lock_shared, unlock_shared, lock, unlock, try_lock, go, step,
  initial,
}
use synchronization_library.FastSharedMutex.Invariant.{
  is_awaiting, is_reading, is_leaving, is_waking, is_outside, is_counting, is_draining, is_writing,
  is_failing, found, admitted, Counts, counts, Shift, shift, Sums, counts-Sums, Facts,
}
use synchronization_library.FastSharedMutex.Readers
use synchronization_library.FastSharedMutex.Writers

abbrev Inv : ℕ → System FastSharedMutex Pc → Type 0
Inv n s = n + s.mem.lost < 2 ^ 30 → Facts s.mem (counts n s.pc)

-- A thread goes from p to q, and the memory becomes `mem`.
arrive :
    (n : ℕ) (s : System FastSharedMutex Pc) (i : ℕ) (p : Pc)
    → Inv n s
    → i < n
    → s.pc i ≡ p
    → (q : Pc) (mem : FastSharedMutex) → s.mem.lost ≤ mem.lost
    → ((d : Counts)
        → n + s.mem.lost < 2 ^ 30
        → Facts s.mem (counts n s.pc)
        → Sums n (counts n s.pc)
        → Sums n d
        → Shift (counts n s.pc) d p q
        → Facts mem d)
    → Inv n (record { mem = mem; pc = update s.pc i q })
arrive n s i p inv lt at q mem more lem few =
    lem (counts n (update s.pc i q)) (omega arith) (inv (omega arith)) (counts-Sums n s.pc)
      (counts-Sums n (update s.pc i q)) (shift n s.pc i p lt at q)

step-Inv :
    (n : ℕ) (s : System FastSharedMutex Pc) (i : ℕ) (call : Call) (p : Pc)
    → Inv n s
    → i < n
    → s.pc i ≡ p
    → After (Inv n) s i (step call s.mem p)
unfolding step
step-Inv n s i lock_shared idle inv lt at = elim (Bool-cases (is_shut s.mem)) [
  | inl closed ↦
      rw (closed, After)
        (arrive n s i idle inv lt at awaiting _ (omega arith)
          (λ d few f a b mv. Readers.await-Facts n s.mem (counts n s.pc) d few f a b mv closed))
  | inr free ↦
      rw (free, After)
        (arrive n s i idle inv lt at reading _ (omega arith)
          (λ d few f a b mv. Readers.read-Facts n s.mem (counts n s.pc) d few f a b mv free))
]
step-Inv n s i try_lock_shared idle inv lt at = elim (Bool-cases (is_shut s.mem)) [
  | inl closed ↦
      rw (closed, After)
        (arrive n s i idle inv lt at idle _ (omega arith)
          (λ d few f a b mv. Readers.lose-Facts n s.mem (counts n s.pc) d few f a b mv closed))
  | inr free ↦
      rw (free, After)
        (arrive n s i idle inv lt at reading _ (omega arith)
          (λ d few f a b mv. Readers.read-Facts n s.mem (counts n s.pc) d few f a b mv free))
]
step-Inv n s i go awaiting inv lt at = elim (Bool-cases (s.mem.rdsem.count == 0)) [
  | inl none_left ↦ rw (none_left, After) (tt)
  | inr posted ↦
      rw (posted, After)
        (arrive n s i awaiting inv lt at reading _ (omega arith)
          (λ d few f a b mv. Readers.admitted-Facts n s.mem (counts n s.pc) d few f a b mv posted))
]
step-Inv n s i unlock_shared reading inv lt at = elim (Bool-cases (is_negative s.mem.rdcount)) [
  | inl negative ↦
      rw (negative, After)
        (arrive n s i reading inv lt at leaving _ (omega arith) (λ d few f a b mv.
          Readers.leave_late-Facts n s.mem (counts n s.pc) d few f a b mv negative))
  | inr positive ↦
      rw (positive, After)
        (arrive n s i reading inv lt at idle _ (omega arith)
          (λ d few f a b mv. Readers.leave-Facts n s.mem (counts n s.pc) d few f a b mv positive))
]
step-Inv n s i go leaving inv lt at = elim (Bool-cases (s.mem.rdwait == 1)) [
  | inl last ↦
      rw (last, After)
        (arrive n s i leaving inv lt at waking _ (omega arith)
          (λ d few f a b mv. Readers.left_last-Facts n s.mem (counts n s.pc) d few f a b mv last))
  | inr more ↦
      rw (more, After)
        (arrive n s i leaving inv lt at idle _ (omega arith)
          (λ d few f a b mv. Readers.left-Facts n s.mem (counts n s.pc) d few f a b mv more))
]
step-Inv n s i go waking inv lt at =
    arrive n s i waking inv lt at idle _ (omega arith)
      (λ d few f a b mv. Readers.wake-Facts n s.mem (counts n s.pc) d few f a b mv)
step-Inv n s i lock idle inv lt at = elim (Bool-cases (s.mem.wrmtx)) [
  | inl held ↦ rw (held, After) (tt)
  | inr free ↦
      rw (free, After)
        (arrive n s i idle inv lt at entering _ (omega arith)
          (λ d few f a b mv. Writers.enter-Facts n s.mem (counts n s.pc) d few f a b mv free))
]
step-Inv n s i go entering inv lt at =
    arrive n s i entering inv lt at (counting s.mem.rdcount) _ (omega arith)
      (λ d few f a b mv. Writers.shut-Facts n s.mem (counts n s.pc) d few f a b mv)
step-Inv n s i go (counting count) inv lt at = elim (Bool-cases (count == max)) [
  | inl none_inside ↦
      rw (none_inside, After)
        (arrive n s i (counting count) inv lt at writing _ (omega arith) (λ d few f a b mv.
          Writers.none_inside-Facts n s.mem (counts n s.pc) d few f a b count mv none_inside))
  | inr some_inside ↦ elim (Bool-cases ((drain count s.mem).rdwait == 0)) [
    | inl all_left ↦
        rw (some_inside, all_left, After)
          (arrive n s i (counting count) inv lt at writing _ (omega arith) (λ d few f a b mv.
            Writers.drained-Facts n s.mem (counts n s.pc) d few f a b count mv some_inside
              all_left))
    | inr some_left ↦
        rw (some_inside, some_left, After)
          (arrive n s i (counting count) inv lt at draining _ (omega arith) (λ d few f a b mv.
            Writers.drain-Facts n s.mem (counts n s.pc) d few f a b count mv some_inside some_left))
  ]
]
step-Inv n s i go draining inv lt at = elim (Bool-cases (s.mem.wrsem.count == 0)) [
  | inl none_left ↦ rw (none_left, After) (tt)
  | inr posted ↦
      rw (posted, After)
        (arrive n s i draining inv lt at writing _ (omega arith)
          (λ d few f a b mv. Writers.woken-Facts n s.mem (counts n s.pc) d few f a b mv posted))
]
step-Inv n s i (try_lock spurious) idle inv lt at = elim (Bool-cases (spurious || s.mem.wrmtx)) [
  | inl held ↦
      rw (held, After)
        (arrive n s i idle inv lt at idle _ (omega arith)
          (λ d few f a b mv. Readers.stay-Facts n s.mem (counts n s.pc) d few f a b mv))
  | inr free ↦
      rw (free, After)
        (arrive n s i idle inv lt at trying _ (omega arith) (λ d few f a b mv.
          Writers.try-Facts n s.mem (counts n s.pc) d few f a b mv (ground (arith, free))))
]
step-Inv n s i go trying inv lt at =
    arrive n s i trying inv lt at (trying_count s.mem.rdcount) _ (omega arith)
      (λ d few f a b mv. Writers.try_shut-Facts n s.mem (counts n s.pc) d few f a b mv)
step-Inv n s i go (trying_count count) inv lt at = elim (Bool-cases (count == max)) [
  | inl none_inside ↦
      rw (none_inside, After)
        (arrive n s i (trying_count count) inv lt at failing _ (omega arith)
          (λ d few f a b mv. Writers.try_fail-Facts n s.mem (counts n s.pc) d few f a b count mv))
  | inr some_inside ↦ elim (Bool-cases ((drain count s.mem).rdwait == 0)) [
    | inl all_left ↦
        rw (some_inside, all_left, After)
          (arrive n s i (trying_count count) inv lt at writing _ (omega arith) (λ d few f a b mv.
            Writers.try_drained-Facts n s.mem (counts n s.pc) d few f a b count mv some_inside
              all_left))
    | inr some_left ↦
        rw (some_inside, some_left, After)
          (arrive n s i (trying_count count) inv lt at failing _ (omega arith) (λ d few f a b mv.
            Writers.try_fail_late-Facts n s.mem (counts n s.pc) d few f a b count mv))
  ]
]
step-Inv n s i go failing inv lt at =
    arrive n s i failing inv lt at idle _ (omega arith)
      (λ d few f a b mv. Writers.failed-Facts n s.mem (counts n s.pc) d few f a b mv)
step-Inv n s i unlock writing inv lt at = elim (Option-cases (waiters_of s.mem.rdcount)) [
  | inl nobody ↦
      rw (nobody, After)
        (arrive n s i writing inv lt at releasing _ (omega arith)
          (λ d few f a b mv. Writers.unlock-Facts n s.mem (counts n s.pc) d few f a b mv nobody))
  | inr (count, waiters) ↦
      rw (waiters, After)
        (arrive n s i writing inv lt at (admitting count) _ (omega arith) (λ d few f a b mv.
          Writers.unlock_some-Facts n s.mem (counts n s.pc) d few f a b count mv waiters))
]
step-Inv n s i go (admitting count) inv lt at =
    arrive n s i (admitting count) inv lt at releasing _ (omega arith)
      (λ d few f a b mv. Writers.admit-Facts n s.mem (counts n s.pc) d few f a b count mv)
step-Inv n s i go releasing inv lt at =
    arrive n s i releasing inv lt at idle _ (omega arith)
      (λ d few f a b mv. Writers.release-Facts n s.mem (counts n s.pc) d few f a b mv)
step-Inv n s i call p inv lt at = tt

Reach-Inv : (n : ℕ) {s : System FastSharedMutex Pc} → Reach step n initial s → Inv n s
Reach-Inv n r =
    Reach-induction step (Inv n) n (λ u i call p inv lt at. step-Inv n u i call p inv lt at)
      (λ few. ground (
        arith,
        total-const is_awaiting n idle refl,
        total-const is_reading n idle refl,
        total-const is_leaving n idle refl,
        total-const is_waking n idle refl,
        total-const is_outside n idle refl,
        total-const is_counting n idle refl,
        total-const is_draining n idle refl,
        total-const is_writing n idle refl,
        total-const is_failing n idle refl,
        total-const found n idle refl,
        total-const admitted n idle refl,
      ))
      r

-- However fewer than 2 ^ 30 threads use a `fast_shared_mutex`, as long as the calls of `try_lock_shared`
-- that failed keep below that with them: where one thread holds it for writing no other holds it, for
-- writing or for reading.
pub writer_alone :
    (n : ℕ) {s : System FastSharedMutex Pc}
    → Reach step n initial s
    → n + s.mem.lost < 2 ^ 30
    → (i j : ℕ) → i < n
    → j < n
    → i ≢ j
    → s.pc i ≡ writing
    → (s.pc j ≢ writing) × (s.pc j ≢ reading)
writer_alone n {s} r few i j i_lt j_lt ne writes = (
  λ writes'. absurd (
      ground (
        arith,
        alone,
        two-le-total is_writing n s.pc i j i_lt j_lt ne,
        ap is_writing writes,
        ap is_writing writes',
      )),
  λ reads. absurd (
      ground (
        arith,
        alone,
        write,
        weight-le-total is_writing n s.pc i i_lt,
        weight-le-total is_reading n s.pc j j_lt,
        ap is_writing writes,
        ap is_reading reads,
      )),
)
  where
    open (Reach-Inv n r few) use {alone, write}

-- However fewer than 2 ^ 30 threads use a `fast_shared_mutex`, as long as the calls of `try_lock_shared`
-- that failed keep below that with them: where a writer waits for the readers that it found, and none of
-- them holds the mutex, is let in or on its way out, the post that the writer waits for is there or about
-- to be made.
pub drainer_woken :
    (n : ℕ) {s : System FastSharedMutex Pc}
    → Reach step n initial s
    → n + s.mem.lost < 2 ^ 30
    → (i : ℕ) → i < n
    → s.pc i ≡ draining
    → total is_reading n s.pc + s.mem.rdsem.count + total is_leaving n s.pc ≡ 0
    → s.mem.wrsem.count + total is_waking n s.pc ≡ 1
drainer_woken n {s} r few i lt waits gone =
    ground
      (arith, alone, drained, weight-le-total is_draining n s.pc i lt, ap is_draining waits, gone)
  where
    open (Reach-Inv n r few) use {alone, drained}
