-- ===== src/Spinlock/Safety.antt =====
-- sync/mutex_extra.hpp, class `spinlock_mutex`: its flag tells whether a thread holds it.
use synchronization_library.Prelude.{
  ℕ, ◌+◌, ◌≤◌, ◌≡◌, refl, arith, inl, inr, Bool-cases, if◌then◌else◌,
}
use synchronization_library.Threads.{
  System, Reach, Reach-induction, After, update, total, total-update, total-const, weight-le-total,
}
use synchronization_library.Spinlock.{
  SpinlockMutex, Pc, idle, spinning, holding, Call, call_lock, call_try_lock, call_unlock, go, step,
  initial,
}

abbrev pub is_holding : Pc → ℕ
is_holding holding = 1
is_holding idle = 0
is_holding spinning = 0

-- The flag counts the holders.
abbrev Inv : ℕ → System SpinlockMutex Pc → Type 0
Inv n s = total is_holding n s.pc ≡ (if s.mem.flag then 1 else 0)

step-Inv :
    (n : ℕ) (s : System SpinlockMutex Pc) (i : ℕ) (call : Call) (p : Pc)
    → Inv n s
    → ((p' : Pc)
        → total is_holding n (update s.pc i p') + is_holding p
          ≡ total is_holding n s.pc + is_holding p')
    → is_holding p ≤ total is_holding n s.pc
    → After (Inv n) s i (step call s.mem p)
unfolding step
step-Inv n s i call_lock idle inv mv le = elim (Bool-cases s.mem.flag) [
  | inl held ↦ rw (held, After) (let f = mv spinning in ground arith)
  | inr free ↦ rw (free, After) (let f = mv holding in ground arith)
]
step-Inv n s i call_try_lock idle inv mv le = elim (Bool-cases s.mem.flag) [
  | inl held ↦ rw (held, After) (let f = mv idle in ground arith)
  | inr free ↦ rw (free, After) (let f = mv holding in ground arith)
]
step-Inv n s i go spinning inv mv le = elim (Bool-cases s.mem.flag) [
  | inl held ↦ rw (held, After) (let f = mv spinning in ground arith)
  | inr free ↦ rw (free, After) (let f = mv holding in ground arith)
]
step-Inv n s i call_unlock holding inv mv le = let f = mv idle in ground arith
step-Inv n s i call p inv mv le = tt

-- However `n` threads lock, try to lock and unlock a `spinlock_mutex`: its flag is set exactly while a
-- thread holds it, and at most one does.
pub flag_iff_held :
    (n : ℕ) {s : System SpinlockMutex Pc}
    → Reach step n initial s
    → total is_holding n s.pc ≡ (if s.mem.flag then 1 else 0)
flag_iff_held n r =
    Reach-induction step (Inv n) n
      (λ u i call p inv lt at.
        step-Inv n u i call p inv (λ p'. rw (← at) (total-update is_holding n u.pc i p' lt))
          (rw at at (weight-le-total is_holding n u.pc i lt)))
      (total-const is_holding n idle refl) r
