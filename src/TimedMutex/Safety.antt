-- ===== src/TimedMutex/Safety.antt =====
-- stdlib/mutex.hpp, class `timed_mutex`: `locked_` tells whether a thread holds it, and one does at most.
use synchronization_library.Prelude.{
  ℕ, ◌+◌, ◌≤◌, ◌≡◌, refl, arith, true, false, inl, inr, Bool-cases, if◌then◌else◌,
}
use synchronization_library.Threads.{
  System, Reach, Reach-induction, After, update, total, total-update, total-const, weight-le-total,
}
use synchronization_library.TimedMutex.{
  TimedMutex, Pc, idle, holding, Call, call_lock, call_unlock, call_try_lock, call_try_lock_until,
  step, initial,
}

abbrev pub is_holding : Pc → ℕ
is_holding holding = 1
is_holding idle = 0

-- `locked_` counts the holders.
abbrev Inv : ℕ → System TimedMutex Pc → Type 0
Inv n s = total is_holding n s.pc ≡ (if s.mem.locked then 1 else 0)

step-Inv :
    (n : ℕ) (s : System TimedMutex Pc) (i : ℕ) (call : Call) (p : Pc)
    → Inv n s
    → ((p' : Pc)
        → total is_holding n (update s.pc i p') + is_holding p
          ≡ total is_holding n s.pc + is_holding p')
    → is_holding p ≤ total is_holding n s.pc
    → After (Inv n) s i (step call s.mem p)
unfolding step
step-Inv n s i call_lock idle inv mv le = elim (Bool-cases s.mem.locked) [
  | inl held ↦ rw (held, After) tt
  | inr free ↦ rw (free, After) (let f = mv holding in ground arith)
]
step-Inv n s i (call_try_lock true) idle inv mv le = elim (Bool-cases s.mem.locked) [
  | inl held ↦ rw (held, After) (let f = mv idle in ground arith)
  | inr free ↦ rw (free, After) (let f = mv holding in ground arith)
]
step-Inv n s i (call_try_lock false) idle inv mv le = let f = mv idle in ground arith
step-Inv n s i (call_try_lock_until true) idle inv mv le = elim (Bool-cases s.mem.locked) [
  | inl held ↦ rw (held, After) (let f = mv idle in ground arith)
  | inr free ↦ rw (free, After) (let f = mv holding in ground arith)
]
step-Inv n s i (call_try_lock_until false) idle inv mv le = elim (Bool-cases s.mem.locked) [
  | inl held ↦ rw (held, After) tt
  | inr free ↦ rw (free, After) (let f = mv holding in ground arith)
]
step-Inv n s i call_unlock holding inv mv le = let f = mv idle in ground arith
step-Inv n s i call p inv mv le = tt

-- However `n` threads use a `timed_mutex`, with time-outs and failing tries: `locked_` is true exactly
-- while a thread holds it, and at most one does.
pub locked_iff_held :
    (n : ℕ) {s : System TimedMutex Pc}
    → Reach step n initial s
    → total is_holding n s.pc ≡ (if s.mem.locked then 1 else 0)
locked_iff_held n r =
    Reach-induction step (Inv n) n
      (λ u i call p inv lt at.
        step-Inv n u i call p inv (λ p'. rw (← at) (total-update is_holding n u.pc i p' lt))
          (rw at at (weight-le-total is_holding n u.pc i lt)))
      (total-const is_holding n idle refl) r
