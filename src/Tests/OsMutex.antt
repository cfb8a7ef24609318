-- ===== src/Tests/OsMutex.antt =====
-- `mutex`, `recursive_mutex` (stdlib/_mutex.hpp, stdlib/mutex.hpp) and `os::rw_mutex`
-- (sync/mutex_extra.hpp) over systems that do as documented.
use synchronization_library.Prelude.{
  ℕ, ◌+◌, ◌-◌, ◌<◌, ◌≡◌, ◌≢◌, refl, arith, Bool, true, Option, none, some, List, [], ◌∷◌, ◌==◌,
  ◌||◌, if◌then◌else◌, Bool-cases, inl, inr,
}
use synchronization_library.MultiLock.Defs.{remove}
use synchronization_library.MultiLock.Lock.{count, count-remove}
use synchronization_library.Threads.Schedule.{run, Run}
use synchronization_library.Os.Mutex
use synchronization_library.Os.Mutex.{PthreadMutex, Gains, Gives, GainsIfAny, holds_as_told}
use synchronization_library.Os.Rwlock
use synchronization_library.Os.Rwlock.{PthreadRwlock, Holds, Excludes}
use synchronization_library.Os.Exclusion.{rw_mutex-Excludes}

-- A recursive mutex: who has it, and how often. 16 is EBUSY, and 1 EPERM.
record Owner : Type 0 where
  owner : ℕ
  depth : ℕ

abbrev depth_of : Owner → ℕ → ℕ
depth_of l j = if j == l.owner then l.depth else 0

abbrev is_free : ℕ → Owner → Bool
is_free who l = l.depth == 0 || l.owner == who

abbrev grab : ℕ → Owner → Owner
grab who l = record { owner = who; depth = l.depth + 1 }

grab-Gains : (who : ℕ) (l : Owner) → is_free who l ≡ true → Gains depth_of who l (0, grab who l)
grab-Gains who l free = (λ j. ground (arith, free), λ success j other. ground (arith, free, other))

abbrev recursive : PthreadMutex Owner
recursive = record {
  init = record { owner = 0; depth = 0 };
  lock = λ who l. if is_free who l then some (0, grab who l) else none;
  trylock = λ who l. if is_free who l then (0, grab who l) else (16, l);
  unlock =
      λ who l. if l.owner == who then (0, record { owner = who; depth = l.depth - 1 }) else (1, l);
  holds = depth_of;
  init_law = λ j. ground arith;
  lock_law = λ who l. elim (Bool-cases (is_free who l)) [
    | inl free ↦ rw (free, GainsIfAny) (grab-Gains who l free)
    | inr taken ↦ rw (taken, GainsIfAny) tt
  ];
  trylock_law = λ who l. elim (Bool-cases (is_free who l)) [
    | inl free ↦ rw (free, Gains) (grab-Gains who l free)
    | inr taken ↦ rw (taken, Gains) (λ j. refl, λ success. absurd (ground (arith, success)))
  ];
  unlock_law = λ who l has. rw (owned who l has, Gives) (refl, λ j. ground arith);
}
  where
    owned : (who : ℕ) (l : Owner) → 0 < depth_of l who → (l.owner == who) ≡ true
    owned who l has = ground (arith, has)

-- Thread 0 locks twice, thread 1 cannot, and after two unlocks it can.
abbrev handed_over : Run (Mutex.step recursive true) 2 (Mutex.initial recursive)
unfolding run Mutex.step
handed_over = run (Mutex.step recursive true) 2 (Mutex.initial recursive) (
    (0, Mutex.lock)
    ∷ (0, Mutex.try_lock)
    ∷ (1, Mutex.try_lock)
    ∷ (0, Mutex.unlock)
    ∷ (1, Mutex.lock)
    ∷ (0, Mutex.unlock)
    ∷ (1, Mutex.lock)
    ∷ [])

has_it : (handed_over.last.pc 0 ≡ Mutex.at 0 0) × (handed_over.last.pc 1 ≡ Mutex.at 1 1)
unfolding run Mutex.step
has_it = (refl, refl)

holds_as_told_example :
    ((i : ℕ) → Mutex.Agrees recursive handed_over.last.mem i (handed_over.last.pc i))
    × ((i j : ℕ)
        → i ≢ j
        → 0 < depth_of handed_over.last.mem i
        → depth_of handed_over.last.mem j ≡ 0)
unfolding run Mutex.step
holds_as_told_example = holds_as_told recursive 2 handed_over.reach

-- A lock for many readers, who stand in a list, or one writer.
data Access : Type 0 where
  shared : List ℕ → Access
  owned : (who : ℕ) → Access

abbrev access : Access → Holds
access (shared readers) = record { reads = λ j. count j readers; writes = λ _. 0 }
access (owned who) = record { reads = λ _. 0; writes = λ j. if j == who then 1 else 0 }

abbrev write : ℕ → Access → Option Access
write who (shared []) = some (owned who)
write who _ = none

abbrev read : ℕ → Access → Option Access
read who (shared readers) = some (shared (who ∷ readers))
read who (owned w) = none

abbrev leave : ℕ → Access → Access
leave who (shared readers) = shared (remove who readers)
leave who (owned w) = shared []

abbrev waiting : Option Access → Option (ℕ × Access)
waiting none = none
waiting (some l) = some (0, l)

abbrev trying : Access → Option Access → ℕ × Access
trying l none = (16, l)
trying l (some l') = (0, l')

write_law :
    (who : ℕ) (l : Access)
    → Rwlock.WritesIfAny access who l (waiting (write who l))
      × Rwlock.WritesIfAny access who l (some (trying l (write who l)))
write_law who (shared []) = (gained, gained)
  where
    gained : Rwlock.Writes who (access (shared [])) 0 (access (owned who))
    gained = ((λ j. (refl, refl)), (λ j. refl), λ j. refl)
write_law who (shared (r ∷ readers)) = (tt, ((λ j. refl), λ j. refl))
write_law who (owned w) = (tt, ((λ j. refl), λ j. refl))

read_law :
    (who : ℕ) (l : Access)
    → Rwlock.ReadsIfAny access who l (waiting (read who l))
      × Rwlock.ReadsIfAny access who l (some (trying l (read who l)))
read_law who (shared readers) = (gained, gained)
  where
    gained : Rwlock.Reads who (access (shared readers)) 0 (access (shared (who ∷ readers)))
    gained = ((λ j. refl), (λ j. ground arith), λ j. refl)
read_law who (owned w) = (tt, ((λ j. refl), λ j. refl))

wrunlock_law :
    (who : ℕ) (l : Access)
    → (access l).writes who ≡ 1
    → ((j : ℕ) → (access (leave who l)).reads j ≡ (access l).reads j)
      × ((j : ℕ) → (access (leave who l)).writes j ≡ Rwlock.lowered who (access l).writes j)
wrunlock_law who (shared readers) has = absurd (omega (arith, has))
wrunlock_law who (owned w) has = ((λ j. refl), λ j. ground (arith, has))

rdunlock_law :
    (who : ℕ) (l : Access)
    → (access l).reads who ≡ 1
    → ((j : ℕ) → (access (leave who l)).reads j ≡ Rwlock.lowered who (access l).reads j)
      × ((j : ℕ) → (access (leave who l)).writes j ≡ (access l).writes j)
rdunlock_law who (shared readers) has =
    ((λ j. ground (arith, count-remove j who readers)), λ j. refl)
rdunlock_law who (owned w) has = absurd (omega (arith, has))

abbrev many_readers : PthreadRwlock Access
many_readers = record {
  init = shared [];
  wrlock = λ who l. waiting (write who l);
  rdlock = λ who l. waiting (read who l);
  trywrlock = λ who l. trying l (write who l);
  tryrdlock = λ who l. trying l (read who l);
  unlock = λ who l. (0, leave who l);
  holds = access;
  init_law = λ j. (refl, refl);
  wrlock_law = λ who l. (write_law who l).0;
  rdlock_law = λ who l. (read_law who l).0;
  trywrlock_law = λ who l. (write_law who l).1;
  tryrdlock_law = λ who l. (read_law who l).1;
  wrunlock_law = λ who l has. (refl, (wrunlock_law who l has).0, (wrunlock_law who l has).1);
  rdunlock_law = λ who l has. (refl, (rdunlock_law who l has).0, (rdunlock_law who l has).1);
}

-- Threads 0 and 1 read, and thread 2 writes when both have left.
abbrev one_writes : Run (Rwlock.step many_readers true) 3 (Rwlock.initial many_readers)
unfolding run Rwlock.step
one_writes = run (Rwlock.step many_readers true) 3 (Rwlock.initial many_readers) (
    (0, Rwlock.lock_shared)
    ∷ (1, Rwlock.lock_shared)
    ∷ (0, Rwlock.unlock_shared)
    ∷ (2, Rwlock.lock)
    ∷ (1, Rwlock.unlock_shared)
    ∷ (2, Rwlock.lock)
    ∷ (0, Rwlock.lock_shared)
    ∷ [])

third_writes : (one_writes.last.pc 0 ≡ Rwlock.outside 0) × (one_writes.last.pc 2 ≡ Rwlock.writing 2)
unfolding run Rwlock.step
third_writes = (refl, refl)

rw_mutex-Excludes_example :
    ((i : ℕ) → Rwlock.Agrees (access one_writes.last.mem) i (one_writes.last.pc i))
    × Excludes (access one_writes.last.mem)
unfolding run Rwlock.step
rw_mutex-Excludes_example = rw_mutex-Excludes many_readers 3 one_writes.reach

-- A try gets the lock, and is undefined from there.
try_is_undefined :
    Rwlock.step many_readers true Rwlock.try_lock (shared []) (Rwlock.outside 4)
    ≡ some (owned 4, Rwlock.undefined)
unfolding Rwlock.step
try_is_undefined = refl
