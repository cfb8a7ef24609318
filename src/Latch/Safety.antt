-- ===== src/Latch/Safety.antt =====
-- stdlib/latch.hpp, class `latch`: whom it lets through, and whom it wakes.
use synchronization_library.Prelude.{
  ℕ, ◌+◌, ◌-◌, ◌^◌, ◌≤◌, ◌<◌, ◌≡◌, refl, ap, arith, inl, inr, Bool-cases, ◌==◌,
}
use synchronization_library.Threads.{
  System, Reach, Reach-induction, After, update, total, total-update, total-const, weight-le-total,
}
use synchronization_library.Latch.Run.{
  Latch, Pc, idle, checking, sleeping, done, Call, count_down_and_wait, count_down, wait, go, step,
  initial,
}

abbrev is_done : Pc → ℕ
is_done done = 1
is_done _ = 0

-- `size` is the number that the latch was made for.
record Inv (n size : ℕ) (s : System Latch Pc) : Type 0 where
  small : size < 2 ^ 63
  counted : s.mem.arrived ≤ size → s.mem.count + s.mem.arrived ≡ size
  quiet : s.mem.arrived ≤ size → s.mem.notified ≡ 0
  complete : 0 < total is_done n s.pc → size ≤ s.mem.arrived

step-Inv :
    (n size : ℕ) (s : System Latch Pc) (i : ℕ) (call : Call) (p : Pc)
    → Inv n size s
    → ((p' : Pc)
        → total is_done n (update s.pc i p') + is_done p ≡ total is_done n s.pc + is_done p')
    → After (Inv n size) s i (step call s.mem p)
unfolding step
step-Inv n size s i count_down_and_wait idle inv mv = elim (Bool-cases (s.mem.count == 0)) [
  | inl zero ↦ rw (zero, After) (let f = mv done in ground arith)
  | inr more ↦ rw (more, After) (let f = mv checking in ground arith)
]
step-Inv n size s i (count_down k) idle inv mv = let f = mv idle in ground arith
step-Inv n size s i wait idle inv mv = elim (Bool-cases (s.mem.count == 0)) [
  | inl zero ↦ rw (zero, After) (let f = mv done in ground arith)
  | inr more ↦ rw (more, After) (let f = mv checking in ground arith)
]
step-Inv n size s i go checking inv mv = elim (Bool-cases (s.mem.count == 0)) [
  | inl zero ↦ rw (zero, After) (let f = mv done in ground arith)
  | inr more ↦ rw (more, After) (let f = mv sleeping in ground arith)
]
step-Inv n size s i go sleeping inv mv = elim (Bool-cases (s.mem.count == 0)) [
  | inl zero ↦ rw (zero, After) (let f = mv done in ground arith)
  | inr more ↦ rw (more, After) (let f = mv sleeping in ground arith)
]
step-Inv n size s i call p inv mv = tt

Reach-Inv :
    (n size : ℕ) {s : System Latch Pc}
    → size < 2 ^ 63
    → Reach step n (initial size) s
    → Inv n size s
Reach-Inv n size small r =
    Reach-induction step (Inv n size) n
      (λ u i call p inv lt at.
        step-Inv n size u i call p inv (λ p'. rw (← at) (total-update is_done n u.pc i p' lt)))
      (record {
        small = small;
        counted = λ few. omega arith;
        quiet = λ few. refl;
        complete = λ some_done. absurd (omega (arith, total-const is_done n idle refl));
      })
      r

-- However `n` threads use a latch made for `size`, spurious wake-ups included: when one of them has
-- returned from `wait` or `count_down_and_wait`, at least `size` decrements have been made.
pub no_early_return :
    (n size : ℕ) {s : System Latch Pc}
    → size < 2 ^ 63
    → Reach step n (initial size) s
    → (i : ℕ) → i < n
    → s.pc i ≡ done
    → size ≤ s.mem.arrived
no_early_return n size {s} small r i lt at =
    complete (omega (arith, weight-le-total is_done n s.pc i lt, ap is_done at))
  where
    open (Reach-Inv n size small r) use {complete}

-- As long as a latch made for `size` has seen at most `size` decrements, which is all that it is made
-- for, no thread has called `notify_all`: also when the last one has arrived and `count_` is 0, those
-- that sleep are not woken.
pub never_notified :
    (n size : ℕ) {s : System Latch Pc}
    → size < 2 ^ 63
    → Reach step n (initial size) s
    → s.mem.arrived ≤ size
    → (s.mem.notified ≡ 0) × (s.mem.count ≡ size - s.mem.arrived)
never_notified n size {s} small r few = (quiet few, omega (arith, counted few))
  where
    open (Reach-Inv n size small r) use {quiet, counted}
