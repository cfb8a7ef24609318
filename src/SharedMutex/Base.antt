-- ===== src/SharedMutex/Base.antt =====
-- stdlib/shared_mutex.hpp: the operations of `shared_mutex_base`, and the timed ones of
-- `shared_timed_mutex`, as what they do to `state_` under `mtx_` and whom they notify.
use Prim.Native.Nat.{max}
use synchronization_library.Prelude.{
  ℕ, ◌+◌, ◌-◌, ◌*◌, ◌/◌, ◌%◌, ◌^◌, Bool, true, false, ◌&&◌, ◌||◌, not, Option, none, some, ◌==◌,
  if◌then◌else◌,
}

-- The bit `write_entered_` of an unsigned of 32 bits, and the bits below it, `n_readers_`.
abbrev pub write_entered : ℕ
write_entered = 2 ^ 31

abbrev pub n_readers : ℕ
n_readers = 2 ^ 31 - 1

-- `state_ & write_entered_`, as a test.
abbrev pub has_writer : ℕ → Bool
has_writer state = state / 2 ^ 31 % 2 == 1

-- `state_ & n_readers_`
abbrev pub readers : ℕ → ℕ
readers state = state % 2 ^ 31

-- `state_ |= write_entered_`
abbrev pub enter_writer : ℕ → ℕ
enter_writer state = max (state / 2 ^ 31 % 2) 1 * 2 ^ 31 + readers state

-- `state_ &= ~n_readers_; state_ |= count`, for a count of 32 bits.
abbrev pub set_readers : ℕ → ℕ → ℕ
set_readers state count = max (state / 2 ^ 31 % 2) (count / 2 ^ 31 % 2) * 2 ^ 31 + count % 2 ^ 31

pub data Notify : Type 0 where
  silent one all : Notify

-- The new `state_`, and what is notified at each gate.
pub record Outcome : Type 0 where
  pub state : ℕ
  pub gate1 : Notify
  pub gate2 : Notify

abbrev quietly : ℕ → Outcome
quietly state = record { state = state; gate1 = silent; gate2 = silent }

-- The wait of `lock` at `gate1_`; `none` while a writer has entered.
unfoldable pub lock_enter : ℕ → Option Outcome
lock_enter state = if has_writer state then none else some (quietly (enter_writer state))

-- Its wait at `gate2_`; `none` while readers are left.
unfoldable pub lock_drain : ℕ → Option Outcome
lock_drain state = if readers state == 0 then some (quietly state) else none

unfoldable pub try_lock : ℕ → Bool × Outcome
try_lock state = if state == 0 then (true, quietly write_entered) else (false, quietly state)

unfoldable pub unlock : ℕ → Outcome
unlock state = record { state = 0; gate1 = all; gate2 = silent }

-- `none` while the test of the loop in `lock_shared` holds. (The loop's body, `gate1_.wait;`, lacks
-- its call, so a thread spins there with `mtx_` held where the model waits.)
unfoldable pub lock_shared : ℕ → Option Outcome
lock_shared state =
    if has_writer state || readers state == n_readers
    then none
    else some (quietly (set_readers state (readers state + 1)))

unfoldable pub try_lock_shared : ℕ → Bool × Outcome
try_lock_shared state =
    if not (has_writer state) && not (readers state == n_readers)
    then (true, quietly (set_readers state (readers state + 1)))
    else (false, quietly state)

unfoldable pub unlock_shared : ℕ → Outcome
unlock_shared state =
    let count = (readers state + 2 ^ 32 - 1) % 2 ^ 32 in
    let state' = set_readers state count in
    if has_writer state'
    then record { state = state'; gate1 = silent; gate2 = if count == 0 then one else silent }
    else record {
      state = state';
      gate1 = if count == n_readers - 1 then one else silent;
      gate2 = silent;
    }

-- `shared_timed_mutex::try_lock_until` up to its second wait: `some (true, _)` has entered,
-- `some (false, _)` has given up.
unfoldable pub try_lock_until_enter : Bool → ℕ → Option (Bool × Outcome)
try_lock_until_enter expired state =
    if has_writer state
    then (if expired then some (false, quietly state) else none)
    else some (true, quietly (enter_writer state))

-- The second wait. Giving up takes the writer's bit back and notifies `gate1_`.
unfoldable pub try_lock_until_drain : Bool → ℕ → Option (Bool × Outcome)
try_lock_until_drain expired state =
    if readers state == 0
    then some (true, quietly state)
    else (if expired
        then some (false, record { state = readers state; gate1 = all; gate2 = silent })
        else none)

unfoldable pub try_lock_shared_until : Bool → ℕ → Option (Bool × Outcome)
try_lock_shared_until expired state =
    if has_writer state || readers state == n_readers
    then (if expired then some (false, quietly state) else none)
    else some (true, quietly (set_readers state (readers state + 1)))
