-- ===== src/Clock/Sleep.antt =====
-- stdlib/internal/sync_thread.hpp, `sync_thread_sleep_for`, POSIX branch. `nanosleep` is the system's: it
-- is a parameter, by the number of the call.
use synchronization_library.Prelude.{
  ℕ, zero, suc, ◌+◌, ◌*◌, ◌≤◌, ◌<◌, ◌≡◌, refl, ap, arith, ℕ_discrete, Bool, true, false, Option,
  none, some,
}
use synchronization_library.Prelude.Int.{ℤ, pos}
use synchronization_library.Clock.Timespec.{
  Timespec, giga, to_timespec, to_timespec-value, IsValid, value,
}

-- What a call of `nanosleep` did: how long it slept, and what it wrote to its second argument when a
-- signal interrupted it. `rejected` is any other error.
pub data Nap : Type 0 where
  finished : (slept : ℕ) → Nap
  interrupted : (slept : ℕ) (left : Timespec) → Nap
  rejected : Nap

-- The documented behaviour for a timespec that is valid: it sleeps at least as long, or writes what is
-- left to sleep.
abbrev pub IsLawful : Timespec → Nap → Type 0
IsLawful ts (finished slept) = value ts ≤ slept
IsLawful ts (interrupted slept left) = IsValid left × (value ts ≤ slept + value left)
IsLawful ts rejected = ⊥

abbrev pub is_interrupted : Nap → Bool
is_interrupted (interrupted slept left) = true
is_interrupted nap = false

-- What follows a call: `again` goes round the loop.
abbrev pub go_on : Nap → (again : Timespec → ℕ → Option ℕ) → ℕ → Option ℕ
go_on (finished more) again slept = some (slept + more)
go_on (interrupted more left) again slept = again left (slept + more)
go_on rejected again slept = some slept

-- It returns, and has slept at least as long as the goal.
abbrev pub Sleeps : ℕ → Option ℕ → Type 0
Sleeps goal o = (total : ℕ) × (o ≡ some total) × (goal ≤ total)

go_on-Sleeps :
    (nap : Nap) (again : Timespec → ℕ → Option ℕ) (slept goal : ℕ) (ts : Timespec)
    → IsLawful ts nap
    → goal ≤ slept + value ts
    → ((left : Timespec) (slept' : ℕ)
        → is_interrupted nap ≡ true
        → IsValid left
        → goal ≤ slept' + value left
        → Sleeps goal (again left slept'))
    → Sleeps goal (go_on nap again slept)
go_on-Sleeps (finished more) again slept goal ts law far next = (slept + more, refl, omega arith)
go_on-Sleeps (interrupted more left) again slept goal ts law far next =
    next left (slept + more) refl law.0 (omega arith)
go_on-Sleeps rejected again slept goal ts law far next = absurd law

module _ (nanosleep : ℕ → Timespec → Nap) where
  -- The loop, with the call's number and the time slept so far; `none` says that the fuel ran out.
  unfoldable pub sleep_from : (fuel call : ℕ) → Timespec → ℕ → Option ℕ
  sleep_from zero call ts slept = none
  sleep_from (suc fuel) call ts slept = go_on (nanosleep call ts) (sleep_from fuel (call + 1)) slept

  -- How long the thread has slept when the function returns.
  unfoldable pub sleep_for : (fuel sec_max : ℕ) → ℤ → Option ℕ
  unfolding sleep_from
  sleep_for fuel sec_max ns = sleep_from fuel 0 (to_timespec sec_max ns) 0

  module _ (lawful : (call : ℕ) (ts : Timespec) → IsValid ts → IsLawful ts (nanosleep call ts))
      (last : ℕ) (calm : (ts : Timespec) → is_interrupted (nanosleep last ts) ≡ false) where
    sleep_from-Sleeps :
        (fuel call slept goal : ℕ) (ts : Timespec)
        → call ≤ last
        → last < call + fuel
        → IsValid ts
        → goal ≤ slept + value ts
        → Sleeps goal (sleep_from fuel call ts slept)
    unfolding sleep_from
    sleep_from-Sleeps zero call slept goal ts started enough valid far = absurd (omega arith)
    sleep_from-Sleeps (suc fuel) call slept goal ts started enough valid far =
        go_on-Sleeps (nanosleep call ts) (sleep_from fuel (call + 1)) slept goal ts
          (lawful call ts valid) far
          (λ left slept' woken valid' far'.
            sleep_from-Sleeps fuel (call + 1) slept' goal left (later woken) (omega arith) valid'
              far')
      where
        later : is_interrupted (nanosleep call ts) ≡ true → call + 1 ≤ last
        later woken = elim (ℕ_discrete call last) [
          | yes same ↦ cc (ap (λ k. is_interrupted (nanosleep k ts)) same, calm ts, woken)
          | no earlier ↦ omega arith
        ]

    -- Over a `nanosleep` that does as documented: however signals interrupt the thread, as long as some
    -- call of `nanosleep` is not interrupted, `sync_thread_sleep_for` returns, and has slept at least as
    -- long as it was asked to, where the seconds are below the largest that fit.
    pub sleep_for-Sleeps :
        (fuel sec_max ns : ℕ)
        → last < fuel
        → ns < sec_max * giga
        → Sleeps ns (sleep_for fuel sec_max (pos ns))
    unfolding sleep_for
    sleep_for-Sleeps fuel sec_max ns enough fits =
        sleep_from-Sleeps fuel 0 0 ns (to_timespec sec_max (pos ns)) (omega arith) (omega arith)
          (to_timespec-value sec_max ns).0 (ground (arith, (to_timespec-value sec_max ns).1))
