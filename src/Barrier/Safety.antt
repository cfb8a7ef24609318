-- ===== src/Barrier/Safety.antt =====
-- stdlib/barrier.hpp, class `barrier`: whom it lets through, and whom it keeps.
use synchronization_library.Prelude.{
  ℕ, ◌+◌, ◌-◌, ◌^◌, ◌≤◌, ◌<◌, ◌≡◌, ◌≢◌, refl, arith, false, some, inl, inr, Bool-cases, ◌==◌,
  if◌then◌else◌,
}
use synchronization_library.Threads.{
  System, Reach, Reach-induction, After, update, total, total-update, total-const, total-eq-zero,
  weight-le-total, total-total-total,
}
use synchronization_library.Barrier.Run.{
  Barrier, Pc, idle, sleeping, dropped, Call, arrive_and_wait, arrive_and_drop, wake, minus_one,
  step, initial,
}

-- Threads that have arrived in this round and sleep.
abbrev pub is_waiting : ℕ → Pc → ℕ
is_waiting now (sleeping round) = if round == now then 1 else 0
is_waiting now _ = 0

abbrev pub is_dropped : Pc → ℕ
is_dropped dropped = 1
is_dropped _ = 0

abbrev pub NotLater : ℕ → Pc → Type 0
NotLater now (sleeping round) = round ≤ now
NotLater now _ = Unit

pub record Inv (n : ℕ) (s : System Barrier Pc) : Type 0 where
  pub small : n < 2 ^ 63
  pub participants : s.mem.threads + total is_dropped n s.pc ≡ n
  pub missing : s.mem.count + total (is_waiting s.mem.rounds) n s.pc ≡ s.mem.threads
  pub open_round : s.mem.threads ≢ 0 → s.mem.count ≢ 0
  pub past : (i : ℕ) → NotLater s.mem.rounds (s.pc i)

-- The others: outside the barrier, or asleep since a round that is over.
abbrev pub is_other : ℕ → Pc → ℕ
is_other now p = 1 - (is_waiting now p + is_dropped p)

pub record Moved (n now : ℕ) (pc : ℕ → Pc) (i : ℕ) (p p' : Pc) : Type 0 where
  pub waiters :
      total (is_waiting now) n (update pc i p') + is_waiting now p
      ≡ total (is_waiting now) n pc + is_waiting now p'
  pub next_waiters :
      total (is_waiting (now + 1)) n (update pc i p') + is_waiting (now + 1) p
      ≡ total (is_waiting (now + 1)) n pc + is_waiting (now + 1) p'
  pub droppers :
      total is_dropped n (update pc i p') + is_dropped p ≡ total is_dropped n pc + is_dropped p'
  pub a_waiter : is_waiting now p ≤ total (is_waiting now) n pc
  pub everyone : total (is_waiting now) n pc + total is_dropped n pc + total (is_other now) n pc ≡ n
  pub an_other : is_other now p ≤ total (is_other now) n pc

one_of_three : (now : ℕ) (p : Pc) → is_waiting now p + is_dropped p + is_other now p ≡ 1
one_of_three now idle = refl
one_of_three now (sleeping round) = ground arith
one_of_three now dropped = refl

pub moved :
    (n now : ℕ) (pc : ℕ → Pc) (i : ℕ) (p : Pc)
    → i < n
    → pc i ≡ p
    → (p' : Pc) → Moved n now pc i p p'
moved n now pc i p lt at p' = rw (← at) (record {
  waiters = total-update (is_waiting now) n pc i p' lt;
  next_waiters = total-update (is_waiting (now + 1)) n pc i p' lt;
  droppers = total-update is_dropped n pc i p' lt;
  a_waiter = weight-le-total (is_waiting now) n pc i lt;
  everyone = total-total-total (is_waiting now) is_dropped (is_other now) (one_of_three now) n pc;
  an_other = weight-le-total (is_other now) n pc i lt;
})

-- In a new round nobody waits yet.
new_round :
    (n now : ℕ) (pc : ℕ → Pc)
    → ((i : ℕ) → NotLater now (pc i))
    → total (is_waiting (now + 1)) n pc ≡ 0
new_round n now pc past =
    total-eq-zero (is_waiting (now + 1)) n pc (λ i lt. none_yet (pc i) (past i))
  where
    none_yet : (p : Pc) → NotLater now p → is_waiting (now + 1) p ≡ 0
    none_yet (sleeping round) before = ground arith
    none_yet idle before = refl
    none_yet dropped before = refl

NotLater-suc : (now : ℕ) (p : Pc) → NotLater now p → NotLater (now + 1) p
NotLater-suc now (sleeping round) before = omega arith
NotLater-suc now idle before = tt
NotLater-suc now dropped before = tt

NotLater-update :
    (now : ℕ) (pc : ℕ → Pc) (i : ℕ) (p' : Pc)
    → ((j : ℕ) → NotLater now (pc j))
    → NotLater now p'
    → (j : ℕ) → NotLater now (update pc i p' j)
NotLater-update now pc i p' past here j = elim (Bool-cases (i == j)) [
  | inl same ↦ rw (same, NotLater) here
  | inr other ↦ rw (other, NotLater) (past j)
]

pub step-Inv :
    (n : ℕ) (s : System Barrier Pc) (i : ℕ) (call : Call) (p : Pc)
    → Inv n s
    → ((p' : Pc) → Moved n s.mem.rounds s.pc i p p')
    → NotLater s.mem.rounds p
    → After (Inv n) s i (step call s.mem p)
unfolding step
step-Inv n s i arrive_and_wait idle inv mv before = elim (Bool-cases (minus_one s.mem.count == 0)) [
  | inl last ↦
      rw (last, After)
        (let f = mv idle in
          record {
            small = inv.small;
            participants = omega (arith, inv.participants);
            missing = omega (arith, new_round n s.mem.rounds s.pc inv.past);
            open_round = λ some_left. some_left;
            past =
                NotLater-update (s.mem.rounds + 1) s.pc i idle
                  (λ j. NotLater-suc s.mem.rounds (s.pc j) (inv.past j)) tt;
          })
  | inr more ↦
      (let f = mv (sleeping s.mem.rounds) in
        let short : (minus_one s.mem.count == s.mem.threads) ≡ false =
          ground (arith, inv.open_round) in
        rw (more, short, After)
          (record {
            small = inv.small;
            participants = omega (arith, inv.participants);
            missing = ground (arith, inv.missing);
            open_round = λ some_left. ground arith;
            past =
                NotLater-update s.mem.rounds s.pc i (sleeping s.mem.rounds) inv.past (omega arith);
          }))
]
step-Inv n s i arrive_and_drop idle inv mv before = elim (Bool-cases (minus_one s.mem.count == 0)) [
  | inl last ↦
      rw (last, After)
        (let f = mv dropped in
          record {
            small = inv.small;
            participants = ground (arith, inv.participants);
            missing = omega (arith, new_round n s.mem.rounds s.pc inv.past);
            open_round = λ some_left. some_left;
            past =
                NotLater-update (s.mem.rounds + 1) s.pc i dropped
                  (λ j. NotLater-suc s.mem.rounds (s.pc j) (inv.past j)) tt;
          })
  | inr more ↦
      rw (more, After)
        (let f = mv dropped in
          record {
            small = inv.small;
            participants = ground (arith, inv.participants);
            missing = ground (arith, inv.missing);
            open_round = λ some_left. ground arith;
            past = NotLater-update s.mem.rounds s.pc i dropped inv.past tt;
          })
]
step-Inv n s i wake (sleeping round) inv mv before =
    elim (Bool-cases (s.mem.count == s.mem.threads)) [
      | inl passes ↦
          rw (passes, After)
            (let f = mv idle in
              record {
                small = inv.small;
                participants = omega (arith, inv.participants);
                missing = ground (arith, inv.missing);
                open_round = inv.open_round;
                past = NotLater-update s.mem.rounds s.pc i idle inv.past tt;
              })
      | inr fails ↦
          rw (fails, After)
            (let f = mv (sleeping round) in
              record {
                small = inv.small;
                participants = omega (arith, inv.participants);
                missing = omega (arith, inv.missing);
                open_round = inv.open_round;
                past = NotLater-update s.mem.rounds s.pc i (sleeping round) inv.past before;
              })
    ]
step-Inv n s i call p inv mv before = tt

pub Reach-Inv : (n : ℕ) {s : System Barrier Pc} → n < 2 ^ 63 → Reach step n (initial n) s → Inv n s
Reach-Inv n small r =
    Reach-induction step (Inv n) n
      (λ u i call p inv lt at.
        step-Inv n u i call p inv (moved n u.mem.rounds u.pc i p lt at) (rw at at (inv.past i)))
      (record {
        small = small;
        participants = omega (arith, total-const is_dropped n idle refl);
        missing = omega (arith, total-const (is_waiting 0) n idle refl);
        open_round = λ some_left. some_left;
        past = λ i. tt;
      })
      r

-- However the `n` threads of a barrier arrive, drop out and wake: `count_` is short of `threads_` by
-- the number of threads that arrived in the round that is not over yet, and each of these fails its
-- test, so that no wake-up lets it through.
pub no_early_release :
    (n : ℕ) {s : System Barrier Pc}
    → n < 2 ^ 63
    → Reach step n (initial n) s
    → (i : ℕ) → i < n
    → s.pc i ≡ sleeping s.mem.rounds
    → (s.mem.count + total (is_waiting s.mem.rounds) n s.pc ≡ s.mem.threads)
      × (step wake s.mem (s.pc i) ≡ some (s.mem, s.pc i))
unfolding step
no_early_release n {s} small r i lt at = (missing, rw (at, fails) refl)
  where
    open (Reach-Inv n small r) use {missing}

    fails : (s.mem.count == s.mem.threads) ≡ false
    fails =
        ground (
          arith,
          missing,
          (moved n s.mem.rounds s.pc i (sleeping s.mem.rounds) lt at idle).a_waiter,
        )
