-- ===== src/Tests/Clock.antt =====
-- The waits of `condition_variable` (stdlib/_mutex.hpp) and `sync_thread_sleep_for`
-- (stdlib/internal/sync_thread.hpp) at concrete clocks.
use synchronization_library.Prelude.{
  ℕ, ◌+◌, ◌-◌, ◌*◌, ◌^◌, ◌≡◌, refl, arith, Bool, true, false, none, some, List, [], ◌∷◌, ◌==◌,
  if◌then◌else◌, get_elem?, Bool-cases, inl, inr,
}
use synchronization_library.Prelude.Int.{pos, negsuc}
use synchronization_library.Clock.Timespec.{
  Timespec, to_timespec, timedwait_timespec, IsValid, value, nearest, latest,
}
use synchronization_library.Clock.Deadline.{
  deadline, wait_for_timespec, earlier, time_max, wait_for-timespec,
}
use synchronization_library.Clock.Sleep.{
  Nap, finished, interrupted, IsLawful, sleep_from, sleep_for, Sleeps, sleep_for-Sleeps,
}
use synchronization_library.Clock.Wait.{
  no_timeout, Round, wait, wait_for, wait_until, wait_until_holds, wait_for_holds, Answers, GoesOn,
  wait_until_holds-Answers,
}

-- Ten minutes, at a time of the system's clock, with a `tv_sec` of 32 bits.
abbrev ten_minutes : ℕ
ten_minutes = 600 * 1000000000 + 5

abbrev s_now : ℕ
s_now = 1700000000 * 1000000000

wait_for-timespec_example :
    (ts : Timespec) × (wait_for_timespec (2 ^ 31 - 1) (pos ten_minutes) s_now ≡ some ts)
    × IsValid ts
    × (value ts ≡ nearest (2 ^ 31 - 1) (earlier (s_now + ten_minutes) latest))
wait_for-timespec_example = wait_for-timespec (2 ^ 31 - 1) ten_minutes s_now (omega arith)

in_ten_minutes :
    wait_for_timespec (2 ^ 31 - 1) (pos ten_minutes) s_now
    ≡ some (record { tv_sec = pos 1700000600; tv_nsec = pos 5 })
unfolding wait_for_timespec deadline timedwait_timespec
in_ten_minutes = refl

-- A duration of less than no time is over, and the seconds of one round towards 0.
no_time_left : wait_for_timespec (2 ^ 31 - 1) (negsuc 4) s_now ≡ none
unfolding wait_for_timespec deadline
no_time_left = refl

negative_duration :
    to_timespec (2 ^ 31 - 1) (negsuc 1500000000)
    ≡ record { tv_sec = negsuc 0; tv_nsec = negsuc 500000000 }
unfolding to_timespec
negative_duration = refl

-- Beyond 2038 a `tv_sec` of 32 bits is at its largest.
too_late :
    timedwait_timespec (2 ^ 31 - 1) (pos (3000000000 * 1000000000))
    ≡ record { tv_sec = pos 2147483647; tv_nsec = pos 999999999 }
unfolding timedwait_timespec
too_late = refl

-- Whatever the duration, the time is not over the limit of the clock.
far_ahead : deadline (pos (2 ^ 63 - 2)) s_now ≡ some time_max
unfolding deadline
far_ahead = refl

-- The first call is interrupted at once; the others sleep as long as they are asked to.
abbrev nanosleep : ℕ → Timespec → Nap
nanosleep call ts = if call == 0 then interrupted 0 ts else finished (value ts)

nanosleep-IsLawful : (call : ℕ) (ts : Timespec) → IsValid ts → IsLawful ts (nanosleep call ts)
nanosleep-IsLawful call ts valid = elim (Bool-cases (call == 0)) [
  | inl first ↦ rw (first, IsLawful) (valid, omega arith)
  | inr later ↦ rw (later, IsLawful) (omega arith)
]

sleep_for-Sleeps_example : Sleeps 2500000000 (sleep_for nanosleep 2 (2 ^ 31 - 1) (pos 2500000000))
sleep_for-Sleeps_example =
    sleep_for-Sleeps nanosleep nanosleep-IsLawful 1 (λ ts. refl) 2 (2 ^ 31 - 1) 2500000000
      (omega arith) (omega arith)

slept_on : sleep_for nanosleep 2 (2 ^ 31 - 1) (pos 2500000000) ≡ some 2500000000
unfolding sleep_for sleep_from to_timespec
slept_on = refl

-- Woken for no reason at first; then the time is over, and the predicate holds at the last moment.
abbrev rounds : List Round
rounds =
    record { asked = false; now = 90; s_now = 1000; after = 95; asked_last = false }
    ∷ record { asked = false; now = 96; s_now = 1006; after = 101; asked_last = true }
    ∷ []

wait_until_holds-Answers_example :
    (b : Bool) × (waits : ℕ) × (r : Round) × (wait_until_holds 100 rounds ≡ some (b, waits))
    × (get_elem? rounds waits ≡ some r)
    × Answers 100 b r
    × GoesOn 100 waits rounds
wait_until_holds-Answers_example =
    wait_until_holds-Answers 100 rounds (inr (inr (inr (inl (omega arith)))))

held_at_last : wait_for_holds 80 20 rounds ≡ some (true, 1)
unfolding wait_for_holds wait_until_holds wait_until
held_at_last = refl

status_of_wait_for : wait_for (pos 20) 1000 90 109 ≡ (some 1020, no_timeout)
unfolding wait_for deadline
status_of_wait_for = refl

waits_twice : wait (false ∷ false ∷ true ∷ []) ≡ some 2
unfolding wait
waits_twice = refl
