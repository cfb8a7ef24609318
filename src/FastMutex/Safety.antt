-- ===== src/FastMutex/Safety.antt =====
-- sync/mutex_extra.hpp, class `fast_mutex`: mutual exclusion, and no wake-up is lost.
use synchronization_library.Prelude.{
  ℕ, ◌+◌, ◌≤◌, ◌<◌, ◌≡◌, ◌≢◌, refl, ap, arith, true, false, Bool, ◌⊎◌, inl, inr, Bool-cases, ◌==◌,
  ℕ_discrete, if◌then◌else◌,
}
use synchronization_library.Threads.{
  System, Reach, Reach-induction, After, update, total, total-update, total-const, weight-le-total,
  two-le-total,
}
use synchronization_library.FastMutex.Run.{
  FastMutex, Pc, idle, contending, sleeping, holding, signaling, Call, step, initial,
}

abbrev pub is_holding : Pc → ℕ
is_holding holding = 1
is_holding _ = 0

abbrev pub is_sleeping : Pc → ℕ
is_sleeping sleeping = 1
is_sleeping _ = 0

-- Threads that will look at `state_` again, or wake one that will, without being woken.
abbrev pub is_active : Pc → ℕ
is_active contending = 1
is_active signaling = 1
is_active _ = 0

abbrev pub one_if : Bool → ℕ
one_if b = if b then 1 else 0

pub record Inv (n : ℕ) (s : System FastMutex Pc) : Type 0 where
  pub three_states : s.mem.state ≤ 2
  pub free : s.mem.state ≡ 0 → total is_holding n s.pc ≡ 0
  pub held : s.mem.state ≢ 0 → total is_holding n s.pc ≡ 1
  pub watched :
      0 < total is_sleeping n s.pc
      → 0 < one_if (s.mem.state == 2) + one_if s.mem.event.signaled + total is_active n s.pc

record Moved (n : ℕ) (pc : ℕ → Pc) (i : ℕ) (p p' : Pc) : Type 0 where
  holders :
      total is_holding n (update pc i p') + is_holding p ≡ total is_holding n pc + is_holding p'
  sleepers :
      total is_sleeping n (update pc i p') + is_sleeping p ≡ total is_sleeping n pc + is_sleeping p'
  actives : total is_active n (update pc i p') + is_active p ≡ total is_active n pc + is_active p'
  a_holder : is_holding p ≤ total is_holding n pc
  a_sleeper : is_sleeping p ≤ total is_sleeping n pc

moved : (n : ℕ) (pc : ℕ → Pc) (i : ℕ) (p : Pc) → i < n → pc i ≡ p → (p' : Pc) → Moved n pc i p p'
moved n pc i p lt at p' = rw (← at) (record {
  holders = total-update is_holding n pc i p' lt;
  sleepers = total-update is_sleeping n pc i p' lt;
  actives = total-update is_active n pc i p' lt;
  a_holder = weight-le-total is_holding n pc i lt;
  a_sleeper = weight-le-total is_sleeping n pc i lt;
})

step-Inv :
    (n : ℕ) (s : System FastMutex Pc) (i : ℕ) (call : Call) (p : Pc)
    → Inv n s
    → ((p' : Pc) → Moved n s.pc i p p')
    → After (Inv n) s i (step call s.mem p)
unfolding step
step-Inv n s i Call.lock idle inv mv = elim (Bool-cases (s.mem.state == 0)) [
  | inl is_free ↦ rw (is_free, After) (let f = mv holding in ground arith)
  | inr is_held ↦ rw (is_held, After) (let f = mv contending in ground arith)
]
step-Inv n s i (Call.try_lock true) idle inv mv = let f = mv idle in ground arith
step-Inv n s i (Call.try_lock false) idle inv mv = elim (Bool-cases (s.mem.state == 0)) [
  | inl is_free ↦ rw (is_free, After) (let f = mv holding in ground arith)
  | inr is_held ↦ rw (is_held, After) (let f = mv idle in ground arith)
]
step-Inv n s i Call.unlock holding inv mv = elim (Bool-cases (s.mem.state == 2)) [
  | inl sleepers ↦ rw (sleepers, After) (let f = mv signaling in ground arith)
  | inr alone ↦ rw (alone, After) (let f = mv idle in ground arith)
]
step-Inv n s i Call.go contending inv mv = elim (Bool-cases (s.mem.state == 0)) [
  | inl is_free ↦ rw (is_free, After) (let f = mv holding in ground arith)
  | inr is_held ↦ rw (is_held, After) (let f = mv sleeping in ground arith)
]
step-Inv n s i Call.go sleeping inv mv = elim (Bool-cases s.mem.event.signaled) [
  | inl signaled ↦ rw (signaled, After) (let f = mv contending in ground arith)
  | inr silent ↦ rw (silent, After) tt
]
step-Inv n s i Call.go signaling inv mv = let f = mv idle in ground arith
step-Inv n s i call p inv mv = tt

Reach-Inv : (n : ℕ) {s : System FastMutex Pc} → Reach step n initial s → Inv n s
Reach-Inv n r =
    Reach-induction step (Inv n) n
      (λ u i call p inv lt at. step-Inv n u i call p inv (moved n u.pc i p lt at))
      (record {
        three_states = omega arith;
        free = λ e. total-const is_holding n idle refl;
        held = λ e. absurd (e refl);
        watched = λ some_sleeper. absurd (omega (arith, total-const is_sleeping n idle refl));
      })
      r

-- However `n` threads lock, try to lock and unlock: two never hold the mutex together.
pub mutual_exclusion :
    (n : ℕ) {s : System FastMutex Pc}
    → Reach step n initial s
    → (i j : ℕ) → i < n
    → j < n
    → s.pc i ≡ holding
    → s.pc j ≡ holding
    → i ≡ j
mutual_exclusion n {s} r i j i_lt j_lt i_holds j_holds = same (ℕ_discrete i j)
  where
    open (Reach-Inv n r) use {free, held}

    same : Dec (i ≡ j) → i ≡ j
    same (yes e) = e
    same (no ne) = elim (ℕ_discrete s.mem.state 0) [
      | yes z ↦ absurd (omega (arith, free z, (moved n s.pc i holding i_lt i_holds idle).a_holder))
      | no z ↦ absurd (
          omega (
            arith,
            held z,
            two-le-total is_holding n s.pc i j i_lt j_lt ne,
            ap is_holding i_holds,
            ap is_holding j_holds,
          ))
    ]

-- However `n` threads use the mutex: while a thread sleeps in `lock`, the event is signaled, or a
-- thread is about to look at `state_` again or to signal, or else one thread holds the mutex with
-- `state_` at 2, so that its `unlock` will signal. So no sleeper is forgotten.
pub no_lost_wakeup :
    (n : ℕ) {s : System FastMutex Pc}
    → Reach step n initial s
    → (i : ℕ) → i < n
    → s.pc i ≡ sleeping
    → (s.mem.event.signaled ≡ true)
      ⊎ (0 < total is_active n s.pc)
      ⊎ ((s.mem.state ≡ 2) × (total is_holding n s.pc ≡ 1))
no_lost_wakeup n {s} r i i_lt sleeps =
    ground
      (arith, watched (omega (arith, (moved n s.pc i sleeping i_lt sleeps idle).a_sleeper)), held)
  where
    open (Reach-Inv n r) use {watched, held}
