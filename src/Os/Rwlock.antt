-- ===== src/Os/Rwlock.antt =====
-- sync/mutex_extra.hpp, class `os::rw_mutex`, over stdlib/internal/sync_mutex.hpp, POSIX branch.
-- `pthread_rwlock_wrlock` and the others are the system's.
use synchronization_library.Prelude.{
  ℕ, zero, suc, ◌-◌, ◌<◌, ◌≡◌, ◌≢◌, Bool, Option, none, some, ◌==◌, if◌then◌else◌,
}
use synchronization_library.Os.Calls.{after_lock, after_lost_try, after_unlock}
use synchronization_library.Threads.{System}

-- One more, or one less, for thread `who`; the others as before.
abbrev pub raised : (who : ℕ) → (ℕ → ℕ) → ℕ → ℕ
raised who f j = if j == who then suc (f j) else f j

abbrev pub lowered : (who : ℕ) → (ℕ → ℕ) → ℕ → ℕ
lowered who f j = if j == who then f j - 1 else f j

-- What each thread holds for reading and for writing.
pub record Holds : Type 0 where
  pub reads : ℕ → ℕ
  pub writes : ℕ → ℕ

abbrev pub AreSame : Holds → Holds → Type 0
AreSame h h' = ((j : ℕ) → h'.reads j ≡ h.reads j) × ((j : ℕ) → h'.writes j ≡ h.writes j)

-- After a lock or a try by thread `who`: success, where no thread held it in a way that forbids it, or
-- no change.
abbrev pub Writes : (who : ℕ) → Holds → (code : ℕ) → Holds → Type 0
Writes who h zero h' =
    ((j : ℕ) → (h.reads j ≡ 0) × (h.writes j ≡ 0))
    × ((j : ℕ) → h'.reads j ≡ h.reads j)
    × ((j : ℕ) → h'.writes j ≡ raised who h.writes j)
Writes who h (suc error) h' = AreSame h h'

abbrev pub Reads : (who : ℕ) → Holds → (code : ℕ) → Holds → Type 0
Reads who h zero h' =
    ((j : ℕ) → h.writes j ≡ 0)
    × ((j : ℕ) → h'.reads j ≡ raised who h.reads j)
    × ((j : ℕ) → h'.writes j ≡ h.writes j)
Reads who h (suc error) h' = AreSame h h'

module _ {L : Type 0} (holds : L → Holds) where
  abbrev pub WritesIfAny : (who : ℕ) → L → Option (ℕ × L) → Type 0
  WritesIfAny who l none = Unit
  WritesIfAny who l (some (code, l')) = Writes who (holds l) code (holds l')

  abbrev pub ReadsIfAny : (who : ℕ) → L → Option (ℕ × L) → Type 0
  ReadsIfAny who l none = Unit
  ReadsIfAny who l (some (code, l')) = Reads who (holds l) code (holds l')

-- A pthread rwlock: the functions give a code, and `none` is a lock that waits. An unlock by a thread
-- that holds it gives up what it holds.
pub record PthreadRwlock (L : Type 0) : Type 0 where
  pub init : L
  pub wrlock : (who : ℕ) → L → Option (ℕ × L)
  pub rdlock : (who : ℕ) → L → Option (ℕ × L)
  pub trywrlock : (who : ℕ) → L → ℕ × L
  pub tryrdlock : (who : ℕ) → L → ℕ × L
  pub unlock : (who : ℕ) → L → ℕ × L
  pub holds : L → Holds
  pub init_law : (j : ℕ) → ((holds init).reads j ≡ 0) × ((holds init).writes j ≡ 0)
  pub wrlock_law : (who : ℕ) (l : L) → WritesIfAny holds who l (wrlock who l)
  pub rdlock_law : (who : ℕ) (l : L) → ReadsIfAny holds who l (rdlock who l)
  pub trywrlock_law : (who : ℕ) (l : L) → WritesIfAny holds who l (some (trywrlock who l))
  pub tryrdlock_law : (who : ℕ) (l : L) → ReadsIfAny holds who l (some (tryrdlock who l))
  pub wrunlock_law :
      (who : ℕ) (l : L)
      → (holds l).writes who ≡ 1
      → ((unlock who l).0 ≡ 0)
        × ((j : ℕ) → (holds (unlock who l).1).reads j ≡ (holds l).reads j)
        × ((j : ℕ) → (holds (unlock who l).1).writes j ≡ lowered who (holds l).writes j)
  pub rdunlock_law :
      (who : ℕ) (l : L)
      → (holds l).reads who ≡ 1
      → ((unlock who l).0 ≡ 0)
        × ((j : ℕ) → (holds (unlock who l).1).reads j ≡ lowered who (holds l).reads j)
        × ((j : ℕ) → (holds (unlock who l).1).writes j ≡ (holds l).writes j)

-- A thread with its number, and what it takes itself to hold. A failed assertion ends it. The end of a try
-- without a `return` is undefined behaviour: the thread makes no step more, and the others are followed on,
-- though C++ promises nothing about them either.
pub data Pc : Type 0 where
  outside writing reading : (who : ℕ) → Pc
  aborted undefined : Pc

pub data Call : Type 0 where
  lock try_lock unlock lock_shared try_lock_shared unlock_shared : Call

module _ {L : Type 0} (os : PthreadRwlock L) where
  -- A thread locks what it does not hold, and unlocks what it holds.
  unfoldable pub step : (asserts : Bool) → Call → L → Pc → Option (L × Pc)
  step asserts lock l (outside who) = after_lock asserts (os.wrlock who l) (writing who) aborted
  step asserts try_lock l (outside who) = after_lost_try (os.trywrlock who l) undefined
  step asserts unlock l (writing who) = after_unlock asserts (os.unlock who l) (outside who) aborted
  step asserts lock_shared l (outside who) =
      after_lock asserts (os.rdlock who l) (reading who) aborted
  step asserts try_lock_shared l (outside who) = after_lost_try (os.tryrdlock who l) undefined
  step asserts unlock_shared l (reading who) =
      after_unlock asserts (os.unlock who l) (outside who) aborted
  step asserts call l p = none

  abbrev pub initial : System L Pc
  initial = record { mem = os.init; pc = λ i. outside i }

-- A thread that goes on is right about what it holds.
abbrev pub Agrees : Holds → ℕ → Pc → Type 0
Agrees h i (outside who) = (who ≡ i) × (h.reads i ≡ 0) × (h.writes i ≡ 0)
Agrees h i (writing who) = (who ≡ i) × (h.reads i ≡ 0) × (h.writes i ≡ 1)
Agrees h i (reading who) = (who ≡ i) × (h.reads i ≡ 1) × (h.writes i ≡ 0)
Agrees h i aborted = Unit
Agrees h i undefined = Unit

-- Where one thread writes, no other holds anything.
abbrev pub Excludes : Holds → Type 0
Excludes h = (i j : ℕ) → i ≢ j → 0 < h.writes i → (h.reads j ≡ 0) × (h.writes j ≡ 0)
