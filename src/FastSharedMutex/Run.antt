-- ===== src/FastSharedMutex/Run.antt =====
-- sync/mutex_extra.hpp, class `fast_shared_mutex`, one atomic access of one thread at a time. Of its
-- `wrmtx_`, a `fast_mutex`, only whether it is held is kept, as FastMutex shows that one thread at most
-- holds it. A long has 64 bits, in two's complement.
use synchronization_library.Prelude.{
  ℕ, ◌+◌, ◌-◌, ◌%◌, ◌^◌, Bool, true, false, ◌||◌, Option, none, some, ◌==◌, leb, if◌then◌else◌,
}
use synchronization_library.Semaphore
use synchronization_library.Semaphore.{Semaphore}
use synchronization_library.Threads.{System}

-- `lost` is no field: it counts the calls of `try_lock_shared` that failed, each of which leaves
-- `rdcount_` one lower.
pub record FastSharedMutex : Type 0 where
  pub wrsem : Semaphore
  pub rdsem : Semaphore
  pub wrmtx : Bool
  pub rdcount : ℕ
  pub rdwait : ℕ
  pub lost : ℕ

-- `numeric_limits<long>::max()`
abbrev pub max : ℕ
max = 2 ^ 63 - 1

abbrev pub is_negative : ℕ → Bool
is_negative x = leb (2 ^ 63) x

abbrev pub add : ℕ → ℕ → ℕ
add x y = (x + y) % 2 ^ 64

abbrev pub sub : ℕ → ℕ → ℕ
sub x y = (x + 2 ^ 64 - y) % 2 ^ 64

-- Where a thread stands.
pub data Pc : Type 0 where
  idle : Pc
  awaiting : Pc  -- in `lock_shared`, before `rdsem_.wait()`
  reading : Pc  -- holds the mutex shared
  leaving : Pc  -- in `unlock_shared`, before the change of `rdwait_`
  waking : Pc  -- in `unlock_shared`, before `wrsem_.post()`
  entering : Pc  -- in `lock`, holds `wrmtx_`
  counting : (count : ℕ) → Pc  -- in `lock`, has changed `rdcount_`
  draining : Pc  -- in `lock`, before `wrsem_.wait()`
  trying : Pc  -- in `try_lock`, holds `wrmtx_`
  trying_count : (count : ℕ) → Pc  -- in `try_lock`, has changed `rdcount_`
  failing : Pc  -- in `try_lock`, before it changes `rdcount_` back
  writing : Pc  -- holds the mutex
  admitting : (count : ℕ) → Pc  -- in `unlock`, before `rdsem_.post(count)`
  releasing : Pc  -- in `unlock`, before `wrmtx_.unlock()`

pub data Call : Type 0 where
  lock_shared try_lock_shared unlock_shared lock unlock : Call
  try_lock : (spurious : Bool) → Call  -- `wrmtx_.try_lock()` may fail on a free mutex
  go : Call  -- the next step of a call that has begun

-- `rdcount_.fetch_add(-1) < 1`
abbrev pub is_shut : FastSharedMutex → Bool
is_shut m = is_negative m.rdcount || m.rdcount == 0

-- `(rdwait_.fetch_add(max - count)) + max - count`, as the new value of `rdwait_`.
abbrev pub drain : ℕ → FastSharedMutex → FastSharedMutex
drain count m = record m { rdwait = add m.rdwait (sub max count) }

-- `int const count = rdcount_.fetch_add(max)`, and -count where that is below 0.
abbrev pub waiters_of : ℕ → Option ℕ
waiters_of count = if leb (2 ^ 31) (count % 2 ^ 32) then some (2 ^ 32 - count % 2 ^ 32) else none

-- One step of one thread.
unfoldable pub step : Call → FastSharedMutex → Pc → Option (FastSharedMutex × Pc)
unfolding Semaphore.wait Semaphore.post Semaphore.post_many
step lock_shared m idle =
    some (record m { rdcount = sub m.rdcount 1 }, if is_shut m then awaiting else reading)
step try_lock_shared m idle =
    if is_shut m
    then some (record m { rdcount = sub m.rdcount 1; lost = m.lost + 1 }, idle)
    else some (record m { rdcount = sub m.rdcount 1 }, reading)
step go m awaiting = elim (Semaphore.wait m.rdsem) [
  | none ↦ none
  | some s ↦ some (record m { rdsem = s }, reading)
]
step unlock_shared m reading =
    some (record m { rdcount = add m.rdcount 1 }, if is_negative m.rdcount then leaving else idle)
step go m leaving =
    some (record m { rdwait = sub m.rdwait 1 }, if m.rdwait == 1 then waking else idle)
step go m waking = some (record m { wrsem = Semaphore.post m.wrsem }, idle)
step lock m idle = if m.wrmtx then none else some (record m { wrmtx = true }, entering)
step go m entering = some (record m { rdcount = sub m.rdcount max }, counting m.rdcount)
step go m (counting count) =
    if count == max
    then some (m, writing)
    else some (drain count m, if (drain count m).rdwait == 0 then writing else draining)
step go m draining = elim (Semaphore.wait m.wrsem) [
  | none ↦ none
  | some s ↦ some (record m { wrsem = s }, writing)
]
step (try_lock spurious) m idle =
    if spurious || m.wrmtx then some (m, idle) else some (record m { wrmtx = true }, trying)
step go m trying = some (record m { rdcount = sub m.rdcount max }, trying_count m.rdcount)
step go m (trying_count count) =
    if count == max
    then some (m, failing)
    else some (drain count m, if (drain count m).rdwait == 0 then writing else failing)
step go m failing = some (record m { rdcount = add m.rdcount max }, idle)
step unlock m writing = elim (waiters_of m.rdcount) [
  | none ↦ some (record m { rdcount = add m.rdcount max }, releasing)
  | some count ↦ some (record m { rdcount = add m.rdcount max }, admitting count)
]
step go m (admitting count) =
    some (record m { rdsem = Semaphore.post_many m.rdsem count }, releasing)
step go m releasing = some (record m { wrmtx = false }, idle)
step call m p = none

abbrev pub initial : System FastSharedMutex Pc
initial = record {
  mem = record {
    wrsem = record { count = 0 };
    rdsem = record { count = 0 };
    wrmtx = false;
    rdcount = max;
    rdwait = 0;
    lost = 0;
  };
  pc = λ _. idle;
}
