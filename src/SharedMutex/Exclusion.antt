-- ===== src/SharedMutex/Exclusion.antt =====
-- stdlib/shared_mutex.hpp: a writer is alone, and `state_` counts the readers.
use synchronization_library.Prelude.{
  ℕ, ◌+◌, ◌*◌, ◌^◌, ◌≤◌, ◌<◌, ◌≡◌, ◌≢◌, refl, ap, arith, ◌/◌, ℕ_discrete, true, false, inl, inr,
  Bool-cases, ◌==◌,
}
use synchronization_library.Threads.{
  System, Reach, Reach-induction, After, update, total, total-update, total-const, weight-le-total,
  two-le-total,
}
use synchronization_library.SharedMutex.Base
use synchronization_library.SharedMutex.Run.{
  Pc, idle, draining, timed_draining, writing, reading, Call, step, initial,
}

-- Threads that have set the writer's bit.
abbrev pub has_entered : Pc → ℕ
has_entered draining = 1
has_entered timed_draining = 1
has_entered writing = 1
has_entered _ = 0

abbrev pub is_writing : Pc → ℕ
is_writing writing = 1
is_writing _ = 0

-- Threads that have entered and wait for the readers to leave.
abbrev pub is_draining : Pc → ℕ
is_draining draining = 1
is_draining timed_draining = 1
is_draining _ = 0

abbrev pub is_reading : Pc → ℕ
is_reading reading = 1
is_reading _ = 0

pub record Inv (n : ℕ) (s : System ℕ Pc) : Type 0 where
  pub word : s.mem ≡ total has_entered n s.pc * 2 ^ 31 + total is_reading n s.pc
  pub one_writer : total has_entered n s.pc ≤ 1
  pub few_readers : total is_reading n s.pc < 2 ^ 31
  pub entered : total has_entered n s.pc ≡ total is_writing n s.pc + total is_draining n s.pc
  pub alone : 0 < total is_writing n s.pc → total is_reading n s.pc ≡ 0

record Moved (n : ℕ) (pc : ℕ → Pc) (i : ℕ) (p p' : Pc) : Type 0 where
  entered :
      total has_entered n (update pc i p') + has_entered p ≡ total has_entered n pc + has_entered p'
  writers :
      total is_writing n (update pc i p') + is_writing p ≡ total is_writing n pc + is_writing p'
  readers :
      total is_reading n (update pc i p') + is_reading p ≡ total is_reading n pc + is_reading p'
  drainers :
      total is_draining n (update pc i p') + is_draining p ≡ total is_draining n pc + is_draining p'
  a_drainer : is_draining p ≤ total is_draining n pc
  an_entered : has_entered p ≤ total has_entered n pc
  a_writer : is_writing p ≤ total is_writing n pc
  a_reader : is_reading p ≤ total is_reading n pc

moved : (n : ℕ) (pc : ℕ → Pc) (i : ℕ) (p : Pc) → i < n → pc i ≡ p → (p' : Pc) → Moved n pc i p p'
moved n pc i p lt at p' = rw (← at) (record {
  entered = total-update has_entered n pc i p' lt;
  writers = total-update is_writing n pc i p' lt;
  readers = total-update is_reading n pc i p' lt;
  drainers = total-update is_draining n pc i p' lt;
  a_drainer = weight-le-total is_draining n pc i lt;
  an_entered = weight-le-total has_entered n pc i lt;
  a_writer = weight-le-total is_writing n pc i lt;
  a_reader = weight-le-total is_reading n pc i lt;
})

step-Inv :
    (n : ℕ) (s : System ℕ Pc) (i : ℕ) (call : Call) (p : Pc)
    → Inv n s
    → ((p' : Pc) → Moved n s.pc i p p')
    → After (Inv n) s i (step call s.mem p)
unfolding step
step-Inv n s i Call.lock idle inv mv = elim (Bool-cases (Base.has_writer s.mem)) [
  | inl passes ↦ rw (passes, After) (tt)
  | inr fails ↦ rw (fails, After) (let f = mv draining in ground arith)
]
step-Inv n s i Call.try_lock idle inv mv = elim (Bool-cases (s.mem == 0)) [
  | inl passes ↦ rw (passes, After) (let f = mv writing in ground arith)
  | inr fails ↦ rw (fails, After) (let f = mv idle in ground arith)
]
step-Inv n s i Call.lock_shared idle inv mv = elim (Bool-cases (Base.has_writer s.mem)) [
  | inl busy ↦ rw (busy, After) (tt)
  | inr free ↦ elim (Bool-cases (Base.readers s.mem == Base.n_readers)) [
    | inl crowded ↦ rw (free, crowded, After) (tt)
    | inr room ↦ rw (free, room, After) (let f = mv reading in ground arith)
  ]
]
step-Inv n s i Call.try_lock_shared idle inv mv = elim (Bool-cases (Base.has_writer s.mem)) [
  | inl busy ↦ rw (busy, After) (let f = mv idle in ground arith)
  | inr free ↦ elim (Bool-cases (Base.readers s.mem == Base.n_readers)) [
    | inl crowded ↦ rw (free, crowded, After) (let f = mv idle in ground arith)
    | inr room ↦ rw (free, room, After) (let f = mv reading in ground arith)
  ]
]
step-Inv n s i (Call.try_lock_until true) idle inv mv = elim (Bool-cases (Base.has_writer s.mem)) [
  | inl passes ↦ rw (passes, After) (let f = mv idle in ground arith)
  | inr fails ↦ rw (fails, After) (let f = mv timed_draining in ground arith)
]
step-Inv n s i (Call.try_lock_until false) idle inv mv = elim (Bool-cases (Base.has_writer s.mem)) [
  | inl passes ↦ rw (passes, After) (tt)
  | inr fails ↦ rw (fails, After) (let f = mv timed_draining in ground arith)
]
step-Inv n s i (Call.try_lock_shared_until true) idle inv mv =
    elim (Bool-cases (Base.has_writer s.mem)) [
      | inl busy ↦ rw (busy, After) (let f = mv idle in ground arith)
      | inr free ↦ elim (Bool-cases (Base.readers s.mem == Base.n_readers)) [
        | inl crowded ↦ rw (free, crowded, After) (let f = mv idle in ground arith)
        | inr room ↦ rw (free, room, After) (let f = mv reading in ground arith)
      ]
    ]
step-Inv n s i (Call.try_lock_shared_until false) idle inv mv =
    elim (Bool-cases (Base.has_writer s.mem)) [
      | inl busy ↦ rw (busy, After) (tt)
      | inr free ↦ elim (Bool-cases (Base.readers s.mem == Base.n_readers)) [
        | inl crowded ↦ rw (free, crowded, After) (tt)
        | inr room ↦ rw (free, room, After) (let f = mv reading in ground arith)
      ]
    ]
step-Inv n s i (Call.go e) draining inv mv = elim (Bool-cases (Base.readers s.mem == 0)) [
  | inl passes ↦ rw (passes, After) (let f = mv writing in ground arith)
  | inr fails ↦ rw (fails, After) (tt)
]
step-Inv n s i (Call.go true) timed_draining inv mv = elim (Bool-cases (Base.readers s.mem == 0)) [
  | inl passes ↦ rw (passes, After) (let f = mv writing in ground arith)
  | inr fails ↦ rw (fails, After) (let f = mv idle in ground arith)
]
step-Inv n s i (Call.go false) timed_draining inv mv = elim (Bool-cases (Base.readers s.mem == 0)) [
  | inl passes ↦ rw (passes, After) (let f = mv writing in ground arith)
  | inr fails ↦ rw (fails, After) (tt)
]
step-Inv n s i Call.unlock writing inv mv = let f = mv idle in ground arith
step-Inv n s i Call.unlock_shared reading inv mv = let f = mv idle in ground arith
step-Inv n s i call p inv mv = tt

Reach-Inv : (n : ℕ) {s : System ℕ Pc} → Reach step n initial s → Inv n s
Reach-Inv n r =
    Reach-induction step (Inv n) n
      (λ u i call p inv lt at. step-Inv n u i call p inv (moved n u.pc i p lt at))
      (record {
        word =
            omega (arith, total-const has_entered n idle refl, total-const is_reading n idle refl);
        one_writer = omega (arith, total-const has_entered n idle refl);
        few_readers = omega (arith, total-const is_reading n idle refl);
        entered = omega (
          arith,
          total-const is_writing n idle refl,
          total-const has_entered n idle refl,
          total-const is_draining n idle refl,
        );
        alone = λ some_writer. total-const is_reading n idle refl;
      })
      r

-- However `n` threads use the mutex, timed calls and time-outs included: where one thread holds it
-- for writing no other holds it, for writing or for reading.
pub writer_excludes :
    (n : ℕ) {s : System ℕ Pc}
    → Reach step n initial s
    → (i j : ℕ) → i < n
    → j < n
    → s.pc i ≡ writing
    → (s.pc j ≢ reading) × (s.pc j ≡ writing → i ≡ j)
writer_excludes n {s} r i j i_lt j_lt at = (
  λ reads. absurd (
      omega (
        arith,
        alone,
        (moved n s.pc i writing i_lt at idle).a_writer,
        (moved n s.pc j reading j_lt reads idle).a_reader,
      )),
  λ writes. same (ℕ_discrete i j) writes,
)
  where
    open (Reach-Inv n r) use {alone, one_writer, entered}

    same : Dec (i ≡ j) → s.pc j ≡ writing → i ≡ j
    same (yes e) writes = e
    same (no ne) writes = absurd (
        omega (
          arith,
          one_writer,
          entered,
          two-le-total is_writing n s.pc i j i_lt j_lt ne,
          ap is_writing at,
          ap is_writing writes,
        ))

-- However `n` threads use the mutex: the low 31 bits of `state_` count the threads that hold it for
-- reading, and the high bit is set exactly while a writer has entered, which at most one has.
state_counts :
    (n : ℕ) {s : System ℕ Pc}
    → Reach step n initial s
    → (Base.readers s.mem ≡ total is_reading n s.pc)
      × (s.mem / 2 ^ 31 ≡ total has_entered n s.pc)
      × (total has_entered n s.pc ≤ 1)
state_counts n r = omega (arith, word, one_writer, few_readers)
  where
    open (Reach-Inv n r) use {word, one_writer, few_readers}
