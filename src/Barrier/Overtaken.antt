-- ===== src/Barrier/Overtaken.antt =====
-- stdlib/barrier.hpp, class `barrier`: a thread that is slow to wake can be overtaken, for ever.
use synchronization_library.Prelude.{ℕ, ◌^◌, ◌≤◌, ◌<◌, ◌≡◌, ◌≢◌, refl, ap, arith, false, ◌==◌}
use synchronization_library.Threads.{
  System, Reach, Reach-induction, After, After-and, total, weight-le-total, two-le-total,
}
use synchronization_library.Barrier.Run.{
  Barrier, Pc, idle, sleeping, Call, arrive_and_wait, arrive_and_drop, wake, minus_one, arrive,
  drop, step, initial,
}
use synchronization_library.Barrier.Safety.{is_waiting, is_other, Inv, moved, step-Inv, Reach-Inv}

module _ (n slow fast old now : ℕ) where
  -- Thread `slow` sleeps since round `old`, which is over, and `fast` since the round that goes on.
  pub record Overtaken (s : System Barrier Pc) : Type 0 where
    pub inv : Inv n s
    pub ended : old < now
    pub current : s.mem.rounds ≡ now
    pub slow_sleeps : s.pc slow ≡ sleeping old
    pub fast_sleeps : s.pc fast ≡ sleeping now

  -- What stays as it is while others move.
  abbrev Kept : System Barrier Pc → Type 0
  Kept u = (u.mem.rounds ≡ now) × (u.pc slow ≡ sleeping old) × (u.pc fast ≡ sleeping now)

  module _ (s : System Barrier Pc) (o : Overtaken s) (slow_lt : slow < n) (fast_lt : fast < n) where
    open o use {inv, ended, current, slow_sleeps, fast_sleeps}

    fast_waits : 1 ≤ total (is_waiting s.mem.rounds) n s.pc
    fast_waits = ground (
      arith,
      weight-le-total (is_waiting s.mem.rounds) n s.pc fast fast_lt,
      ap (is_waiting s.mem.rounds) fast_sleeps,
    )

    two_others : (i : ℕ) → i < n → s.pc i ≡ idle → 2 ≤ total (is_other s.mem.rounds) n s.pc
    two_others i lt at = ground (
      arith,
      two-le-total (is_other s.mem.rounds) n s.pc slow i slow_lt lt distinct,
      ap (is_other s.mem.rounds) slow_sleeps,
      ap (is_other s.mem.rounds) at,
    )
      where
        distinct : slow ≢ i
        distinct same = ground (arith, slow_sleeps, at, same)

    keeps_sleepers :
        (i : ℕ) (call : Call) (p : Pc) → i < n → s.pc i ≡ p → After Kept s i (step call s.mem p)
    unfolding step arrive drop
    keeps_sleepers i arrive_and_wait idle lt at =
        let f = moved n s.mem.rounds s.pc i idle lt at idle in
        let goes_on : (minus_one s.mem.count == 0) ≡ false =
          ground (arith, two_others i lt at, inv.missing, inv.participants, inv.small) in
        let waits : (minus_one s.mem.count == s.mem.threads) ≡ false =
          ground (arith, two_others i lt at, inv.missing, inv.participants, inv.small) in
        rw (goes_on, waits, After)
          (current, ground (arith, slow_sleeps, at), ground (arith, fast_sleeps, at))
    keeps_sleepers i arrive_and_drop idle lt at =
        let f = moved n s.mem.rounds s.pc i idle lt at idle in
        let goes_on : (minus_one s.mem.count == 0) ≡ false =
          ground (arith, two_others i lt at, inv.missing, inv.participants, inv.small) in
        rw (goes_on, After)
          (current, ground (arith, slow_sleeps, at), ground (arith, fast_sleeps, at))
    keeps_sleepers i wake (sleeping round) lt at =
        let fails : (s.mem.count == s.mem.threads) ≡ false =
          ground (arith, fast_waits, inv.missing) in
        rw (fails, After)
          (current, ground (arith, slow_sleeps, at), ground (arith, fast_sleeps, at))
    keeps_sleepers i call p lt at = tt

    keeps-Overtaken :
        (i : ℕ) (call : Call) (p : Pc)
        → i < n
        → s.pc i ≡ p
        → After Overtaken s i (step call s.mem p)
    keeps-Overtaken i call p lt at =
        After-and (Inv n) Kept Overtaken s i (step call s.mem p)
          (λ u v k. record {
            inv = v;
            ended = ended;
            current = k.0;
            slow_sleeps = k.1;
            fast_sleeps = k.2;
          })
          (step-Inv n s i call p inv (moved n s.mem.rounds s.pc i p lt at) (rw at at (inv.past i)))
          (keeps_sleepers i call p lt at)

-- In any run of a barrier for `n` threads: let a thread sleep since a round that is over, not having
-- looked at its test yet, and another since the round that goes on. Then, whatever happens from there
-- on, both sleep for ever, and that round never ends. For the second arrival of the fast thread has
-- made the test of the slow one false again.
pub overtaken_forever :
    (n slow fast old : ℕ) {s t : System Barrier Pc}
    → n < 2 ^ 63
    → Reach step n (initial n) s
    → slow < n
    → fast < n
    → old < s.mem.rounds
    → s.pc slow ≡ sleeping old
    → s.pc fast ≡ sleeping s.mem.rounds
    → Reach step n s t
    → (t.pc slow ≡ sleeping old)
      × (t.pc fast ≡ sleeping s.mem.rounds)
      × (t.mem.rounds ≡ s.mem.rounds)
overtaken_forever n slow fast old {s} {t} small before slow_lt fast_lt ended slow_at fast_at
      then_on =
    (last.slow_sleeps, last.fast_sleeps, last.current)
  where
    last : Overtaken n slow fast old s.mem.rounds t
    last =
        Reach-induction step (Overtaken n slow fast old s.mem.rounds) n
          (λ u i call p o lt at.
            keeps-Overtaken n slow fast old s.mem.rounds u o slow_lt fast_lt i call p lt at)
          (record {
            inv = Reach-Inv n small before;
            ended = ended;
            current = refl;
            slow_sleeps = slow_at;
            fast_sleeps = fast_at;
          })
          then_on
