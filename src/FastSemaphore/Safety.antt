-- ===== src/FastSemaphore/Safety.antt =====
-- sync/semaphore.hpp, class `fast_semaphore`: every post lets one wait pass.
use synchronization_library.Prelude.{
  ℕ, ◌+◌, ◌^◌, ◌≤◌, ◌<◌, ◌≡◌, refl, arith, inl, inr, Bool-cases, ◌==◌, ◌||◌,
}
use synchronization_library.Threads.{
  System, Reach, Reach-induction, After, update, total, total-update, total-const, weight-le-total,
  total-le,
}
use synchronization_library.FastSemaphore.Run.{
  FastSemaphore, Pc, idle, posting, waiting, Call, post, wait, go, step, initial, is_negative,
}

abbrev pub is_waiting : Pc → ℕ
is_waiting waiting = 1
is_waiting idle = 0
is_waiting posting = 0

abbrev pub is_posting : Pc → ℕ
is_posting posting = 1
is_posting idle = 0
is_posting waiting = 0

-- Those that wait are let through by what `semaphore_` counts and is about to count, but for those
-- whom a negative `count_` owes a post.
record Facts (n start : ℕ) (s : System FastSemaphore Pc) : Type 0 where
  few : total is_waiting n s.pc ≤ n
  narrow : s.mem.count < 2 ^ 64
  enough :
      s.mem.count < 2 ^ 63
      → (total is_waiting n s.pc ≡ s.mem.semaphore.count + total is_posting n s.pc)
        × (s.mem.passes + total is_waiting n s.pc + s.mem.count ≡ start + s.mem.posts)
  owed :
      2 ^ 63 ≤ s.mem.count
      → (total is_waiting n s.pc + s.mem.count
          ≡ s.mem.semaphore.count + total is_posting n s.pc + 2 ^ 64)
        × (s.mem.passes + s.mem.semaphore.count + total is_posting n s.pc ≡ start + s.mem.posts)

abbrev Inv : ℕ → ℕ → System FastSemaphore Pc → Type 0
Inv n start s = start + s.mem.posts < 2 ^ 63 → Facts n start s

record Moved (n : ℕ) (pc : ℕ → Pc) (i : ℕ) (p p' : Pc) : Type 0 where
  waiters :
      total is_waiting n (update pc i p') + is_waiting p ≡ total is_waiting n pc + is_waiting p'
  posters :
      total is_posting n (update pc i p') + is_posting p ≡ total is_posting n pc + is_posting p'
  a_waiter : is_waiting p ≤ total is_waiting n pc
  a_poster : is_posting p ≤ total is_posting n pc
  few_then : total is_waiting n (update pc i p') ≤ n

moved : (n : ℕ) (pc : ℕ → Pc) (i : ℕ) (p : Pc) → i < n → pc i ≡ p → (p' : Pc) → Moved n pc i p p'
moved n pc i p lt at p' = record {
  waiters = rw (← at) (total-update is_waiting n pc i p' lt);
  posters = rw (← at) (total-update is_posting n pc i p' lt);
  a_waiter = rw (← at) (weight-le-total is_waiting n pc i lt);
  a_poster = rw (← at) (weight-le-total is_posting n pc i lt);
  few_then = total-le is_waiting n (update pc i p') at_most_one;
}
  where
    at_most_one : (q : Pc) → is_waiting q ≤ 1
    at_most_one waiting = omega arith
    at_most_one idle = omega arith
    at_most_one posting = omega arith

step-Inv :
    (n start : ℕ) (s : System FastSemaphore Pc) (i : ℕ) (call : Call) (p : Pc)
    → n < 2 ^ 62
    → Inv n start s
    → ((p' : Pc) → Moved n s.pc i p p')
    → After (Inv n start) s i (step call s.mem p)
unfolding step
step-Inv n start s i post idle small inv mv = elim (Bool-cases (is_negative s.mem.count)) [
  | inl neg ↦
      rw (neg, After)
        (λ room.
          let f = mv posting in
          let o = inv (omega (arith, room)) in
          record {
            few = f.few_then;
            narrow = ground (arith, neg, o.narrow);
            enough = λ c. ground (
              arith, neg, f.waiters, f.posters, f.a_waiter, f.a_poster, f.few_then, small, o.few,
              o.narrow, o.enough, o.owed, c,
            );
            owed = λ c. ground (
              arith, neg, f.waiters, f.posters, f.a_waiter, f.a_poster, f.few_then, small, o.few,
              o.narrow, o.enough, o.owed, c,
            );
          })
  | inr pos ↦
      rw (pos, After)
        (λ room.
          let f = mv idle in
          let o = inv (omega (arith, room)) in
          record {
            few = f.few_then;
            narrow = ground (arith, pos, o.narrow);
            enough = λ c. ground (
              arith, pos, f.waiters, f.posters, f.a_waiter, f.a_poster, f.few_then, small, o.few,
              o.narrow, o.enough, o.owed, c,
            );
            owed = λ c. ground (
              arith, pos, f.waiters, f.posters, f.a_waiter, f.a_poster, f.few_then, small, o.few,
              o.narrow, o.enough, o.owed, c,
            );
          })
]
step-Inv n start s i wait idle small inv mv =
    elim (Bool-cases (is_negative s.mem.count || (s.mem.count == 0))) [
      | inl behind ↦
          rw (behind, After)
            (λ room.
              let f = mv waiting in
              let o = inv (room) in
              record {
                few = f.few_then;
                narrow = ground (arith, behind, o.narrow);
                enough = λ c. ground (
                  arith, behind, f.waiters, f.posters, f.a_waiter, f.a_poster, f.few_then, small,
                  o.few, o.narrow, o.enough, o.owed, c,
                );
                owed = λ c. ground (
                  arith, behind, f.waiters, f.posters, f.a_waiter, f.a_poster, f.few_then, small,
                  o.few, o.narrow, o.enough, o.owed, c,
                );
              })
      | inr ahead ↦
          rw (ahead, After)
            (λ room.
              let f = mv idle in
              let o = inv (room) in
              record {
                few = f.few_then;
                narrow = ground (arith, ahead, o.narrow);
                enough = λ c. ground (
                  arith, ahead, f.waiters, f.posters, f.a_waiter, f.a_poster, f.few_then, small,
                  o.few, o.narrow, o.enough, o.owed, c,
                );
                owed = λ c. ground (
                  arith, ahead, f.waiters, f.posters, f.a_waiter, f.a_poster, f.few_then, small,
                  o.few, o.narrow, o.enough, o.owed, c,
                );
              })
    ]
step-Inv n start s i go posting small inv mv = λ room.
    let f = mv idle in
    let o = inv room in
    record {
      few = f.few_then;
      narrow = ground (arith, o.narrow);
      enough = λ c. ground (
        arith, f.waiters, f.posters, f.a_waiter, f.a_poster, f.few_then, small, o.few, o.narrow,
        o.enough, o.owed, c,
      );
      owed = λ c. ground (
        arith, f.waiters, f.posters, f.a_waiter, f.a_poster, f.few_then, small, o.few, o.narrow,
        o.enough, o.owed, c,
      );
    }
step-Inv n start s i go waiting small inv mv = elim (Bool-cases (s.mem.semaphore.count == 0)) [
  | inl none_left ↦ rw (none_left, After) tt
  | inr some_left ↦
      rw (some_left, After)
        (λ room.
          let f = mv idle in
          let o = inv (room) in
          record {
            few = f.few_then;
            narrow = ground (arith, some_left, o.narrow);
            enough = λ c. ground (
              arith, some_left, f.waiters, f.posters, f.a_waiter, f.a_poster, f.few_then, small,
              o.few, o.narrow, o.enough, o.owed, c,
            );
            owed = λ c. ground (
              arith, some_left, f.waiters, f.posters, f.a_waiter, f.a_poster, f.few_then, small,
              o.few, o.narrow, o.enough, o.owed, c,
            );
          })
]
step-Inv n start s i call p small inv mv = tt

Reach-Inv :
    (n start : ℕ) {s : System FastSemaphore Pc}
    → n < 2 ^ 62
    → Reach step n (initial start) s
    → Inv n start s
Reach-Inv n start small r =
    Reach-induction step (Inv n start) n
      (λ u i call p inv lt at. step-Inv n start u i call p small inv (moved n u.pc i p lt at))
      (λ room. record {
        few = omega (arith, total-const is_waiting n idle refl);
        narrow = omega (arith, room);
        enough = λ c. (
          omega (arith, total-const is_waiting n idle refl, total-const is_posting n idle refl),
          omega (arith, total-const is_waiting n idle refl),
        );
        owed = λ c. absurd (omega (arith, room, c));
      })
      r

-- However `n` threads use a `fast_semaphore` that starts with `start`, as long as start and posts fit
-- a long: no more calls of `wait` have passed than start and posts allow.
pub passes_within_posts :
    (n start : ℕ) {s : System FastSemaphore Pc}
    → n < 2 ^ 62
    → Reach step n (initial start) s
    → start + s.mem.posts < 2 ^ 63
    → s.mem.passes ≤ start + s.mem.posts
passes_within_posts n start {s} small r room =
    ground (arith, all.few, all.narrow, all.enough, all.owed)
  where
    all : Facts n start s
    all = Reach-Inv n start small r room

-- Under the same conditions: where a thread waits though no post is counted by `semaphore_` or on its
-- way there, start and posts have all let a wait pass. So no post is lost.
pub no_lost_post :
    (n start : ℕ) {s : System FastSemaphore Pc}
    → n < 2 ^ 62
    → Reach step n (initial start) s
    → start + s.mem.posts < 2 ^ 63
    → (i : ℕ) → i < n
    → s.pc i ≡ waiting
    → total is_posting n s.pc ≡ 0
    → s.mem.semaphore.count ≡ 0
    → s.mem.passes ≡ start + s.mem.posts
no_lost_post n start {s} small r room i lt at no_post none_left =
    let f = (moved n s.pc i waiting lt at idle).a_waiter in
    ground (arith, all.narrow, all.enough, all.owed)
  where
    all : Facts n start s
    all = Reach-Inv n start small r room
