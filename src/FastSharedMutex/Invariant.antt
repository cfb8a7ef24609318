-- ===== src/FastSharedMutex/Invariant.antt =====
-- sync/mutex_extra.hpp, class `fast_shared_mutex`: what its counts stand for in each part of a writer's
-- visit.
use synchronization_library.Prelude.{ℕ, ◌+◌, ◌%◌, ◌^◌, ◌≤◌, ◌<◌, ◌≡◌, arith, ◌==◌, if◌then◌else◌}
use synchronization_library.Threads.{update, total, total-update, total-le, total-eq-zero_of}
use synchronization_library.FastSharedMutex.Run.{
  FastSharedMutex, max, sub, Pc, awaiting, reading, leaving, waking, entering, counting, draining,
  trying, trying_count, failing, writing, admitting, releasing,
}

abbrev pub is_awaiting : Pc → ℕ
is_awaiting awaiting = 1
is_awaiting p = 0

abbrev pub is_reading : Pc → ℕ
is_reading reading = 1
is_reading p = 0

abbrev pub is_leaving : Pc → ℕ
is_leaving leaving = 1
is_leaving p = 0

abbrev pub is_waking : Pc → ℕ
is_waking waking = 1
is_waking p = 0

-- A writer before it changes `rdcount_`, or after it has changed it back.
abbrev pub is_outside : Pc → ℕ
is_outside entering = 1
is_outside trying = 1
is_outside (admitting k) = 1
is_outside releasing = 1
is_outside p = 0

abbrev pub is_counting : Pc → ℕ
is_counting (counting c) = 1
is_counting (trying_count c) = 1
is_counting p = 0

abbrev pub is_draining : Pc → ℕ
is_draining draining = 1
is_draining p = 0

abbrev pub is_writing : Pc → ℕ
is_writing writing = 1
is_writing p = 0

abbrev pub is_failing : Pc → ℕ
is_failing failing = 1
is_failing p = 0

-- The readers that a writer has found inside.
abbrev pub found : Pc → ℕ
found (counting c) = sub max c
found (trying_count c) = sub max c
found p = 0

-- The posts that a writer is about to make.
abbrev pub admitted : Pc → ℕ
admitted (admitting k) = k
admitted p = 0

-- The sums of the weights over the threads.
pub record Counts : Type 0 where
  pub awaiters : ℕ
  pub readers : ℕ
  pub leavers : ℕ
  pub wakers : ℕ
  pub outsiders : ℕ
  pub counters : ℕ
  pub drainers : ℕ
  pub writers : ℕ
  pub failers : ℕ
  pub all_found : ℕ
  pub all_admitted : ℕ

abbrev pub counts : ℕ → (ℕ → Pc) → Counts
counts n pc = record {
  awaiters = total is_awaiting n pc;
  readers = total is_reading n pc;
  leavers = total is_leaving n pc;
  wakers = total is_waking n pc;
  outsiders = total is_outside n pc;
  counters = total is_counting n pc;
  drainers = total is_draining n pc;
  writers = total is_writing n pc;
  failers = total is_failing n pc;
  all_found = total found n pc;
  all_admitted = total admitted n pc;
}

-- The sums before and after a thread goes from p to q.
pub record Shift (c d : Counts) (p q : Pc) : Type 0 where
  pub awaiters : d.awaiters + is_awaiting p ≡ c.awaiters + is_awaiting q
  pub readers : d.readers + is_reading p ≡ c.readers + is_reading q
  pub leavers : d.leavers + is_leaving p ≡ c.leavers + is_leaving q
  pub wakers : d.wakers + is_waking p ≡ c.wakers + is_waking q
  pub outsiders : d.outsiders + is_outside p ≡ c.outsiders + is_outside q
  pub counters : d.counters + is_counting p ≡ c.counters + is_counting q
  pub drainers : d.drainers + is_draining p ≡ c.drainers + is_draining q
  pub writers : d.writers + is_writing p ≡ c.writers + is_writing q
  pub failers : d.failers + is_failing p ≡ c.failers + is_failing q
  pub all_found : d.all_found + found p ≡ c.all_found + found q
  pub all_admitted : d.all_admitted + admitted p ≡ c.all_admitted + admitted q

pub shift :
    (n : ℕ) (pc : ℕ → Pc) (i : ℕ) (p : Pc)
    → i < n
    → pc i ≡ p
    → (q : Pc) → Shift (counts n pc) (counts n (update pc i q)) p q
shift n pc i p lt at q = record {
  awaiters = rw (← at) (total-update is_awaiting n pc i q lt);
  readers = rw (← at) (total-update is_reading n pc i q lt);
  leavers = rw (← at) (total-update is_leaving n pc i q lt);
  wakers = rw (← at) (total-update is_waking n pc i q lt);
  outsiders = rw (← at) (total-update is_outside n pc i q lt);
  counters = rw (← at) (total-update is_counting n pc i q lt);
  drainers = rw (← at) (total-update is_draining n pc i q lt);
  writers = rw (← at) (total-update is_writing n pc i q lt);
  failers = rw (← at) (total-update is_failing n pc i q lt);
  all_found = rw (← at) (total-update found n pc i q lt);
  all_admitted = rw (← at) (total-update admitted n pc i q lt);
}

-- What holds of the sums in every state.
pub record Sums (n : ℕ) (c : Counts) : Type 0 where
  pub few_awaiting : c.awaiters ≤ n
  pub few_reading : c.readers ≤ n
  pub few_leaving : c.leavers ≤ n
  pub none_found : c.counters ≡ 0 → c.all_found ≡ 0
  pub none_admitted : c.outsiders ≡ 0 → c.all_admitted ≡ 0

pub counts-Sums : (n : ℕ) (pc : ℕ → Pc) → Sums n (counts n pc)
counts-Sums n pc = record {
  few_awaiting = total-le is_awaiting n pc awaiting-le;
  few_reading = total-le is_reading n pc reading-le;
  few_leaving = total-le is_leaving n pc leaving-le;
  none_found = total-eq-zero_of is_counting found found-zero n pc;
  none_admitted = total-eq-zero_of is_outside admitted admitted-zero n pc;
}
  where
    awaiting-le : (p : Pc) → is_awaiting p ≤ 1
    awaiting-le p = ground arith

    reading-le : (p : Pc) → is_reading p ≤ 1
    reading-le p = ground arith

    leaving-le : (p : Pc) → is_leaving p ≤ 1
    leaving-le p = ground arith

    found-zero : (p : Pc) → is_counting p ≡ 0 → found p ≡ 0
    found-zero p = ground arith

    admitted-zero : (p : Pc) → is_outside p ≡ 0 → admitted p ≡ 0
    admitted-zero p = ground arith

-- The counts of the mutex, in each part of a writer's visit. Little need hold once a `try_lock` has
-- failed, since `wrmtx_` is held from then on.
pub record Facts (m : FastSharedMutex) (c : Counts) : Type 0 where
  pub narrow : m.rdcount < 2 ^ 64
  pub narrow_wait : m.rdwait < 2 ^ 64
  -- One writer at most.
  pub alone :
      c.outsiders + c.counters + c.drainers + c.writers + c.failers ≤ (if m.wrmtx then 1 else 0)
  -- No writer has changed `rdcount_`.
  pub calm :
      c.outsiders ≡ (if m.wrmtx then 1 else 0)
      → (m.rdcount + c.awaiters + c.readers + m.lost ≡ max)
        × (c.awaiters + m.lost ≡ m.rdsem.count + c.all_admitted)
        × (c.leavers + c.wakers + m.wrsem.count + m.rdwait ≡ 0)
  -- A writer has.
  pub shut :
      c.counters + c.drainers + c.writers ≡ 1
      → (m.rdcount + c.awaiters + c.readers + m.lost) % 2 ^ 64 ≡ 0
  pub count :
      c.counters ≡ 1
      → ((m.rdwait + c.all_found) % 2 ^ 64 ≡ c.readers + m.rdsem.count + c.leavers)
        × (c.readers + m.rdsem.count + c.leavers ≤ c.all_found)
        × (c.all_found < 2 ^ 33)
        × (c.wakers + m.wrsem.count ≡ 0)
  pub drained :
      c.drainers ≡ 1
      → (m.rdwait ≡ c.readers + m.rdsem.count + c.leavers)
        × (m.rdwait < 2 ^ 33)
        × (c.wakers + m.wrsem.count ≡ (if m.rdwait == 0 then 1 else 0))
  pub write :
      c.writers ≡ 1
      → c.readers + m.rdsem.count + c.leavers + m.rdwait + c.wakers + m.wrsem.count ≡ 0
