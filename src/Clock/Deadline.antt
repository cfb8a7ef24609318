-- ===== src/Clock/Deadline.antt =====
-- stdlib/_mutex.hpp, `condition_variable::wait_for` without a predicate: the time that it gives to
-- `sync_cond_timedwait` of stdlib/internal/sync_cond.hpp.
use synchronization_library.Prelude.{
  ℕ, ◌+◌, ◌-◌, ◌^◌, ◌<◌, ◌≡◌, refl, arith, Option, none, some, ltb, leb, if◌then◌else◌,
}
use synchronization_library.Prelude.Int.{ℤ, pos, negsuc, ltb_ℤ}
use synchronization_library.Clock.Timespec.{
  Timespec, latest, timedwait_timespec, to_timespec, to_timespec-value, IsValid, value, nearest,
}

-- `system_clock::time_point::max()`, in nanoseconds of 64 bits.
abbrev pub time_max : ℕ
time_max = 2 ^ 63 - 1

-- Durations and times are whole nanoseconds, so that the conversion to long double and `ceil` leave
-- them as they are. `none` is a call that returns at once, since no time is left.
unfoldable pub deadline : (dur : ℤ) → (s_now : ℕ) → Option ℕ
deadline (negsuc n) s_now = none
deadline (pos dur) s_now =
    if leb dur 0
    then none
    else if ltb (s_now + dur) time_max
    then some (s_now + dur)
    else some time_max

-- The timespec that the call of the system gets.
unfoldable pub wait_for_timespec : (sec_max : ℕ) → (dur : ℤ) → (s_now : ℕ) → Option Timespec
wait_for_timespec sec_max dur s_now = elim (deadline dur s_now) [
  | none ↦ none
  | some tp ↦ some (timedwait_timespec sec_max (pos tp))
]

-- `min`
abbrev pub earlier : ℕ → ℕ → ℕ
earlier a b = if ltb b a then b else a

-- The time that is asked for, before `sync_cond_timedwait` cuts it off.
abbrev asked : ℕ → ℕ → ℕ
asked dur s_now = if ltb (s_now + dur) time_max then s_now + dur else time_max

deadline-asked : (dur s_now : ℕ) → 0 < dur → deadline (pos dur) s_now ≡ some (asked dur s_now)
unfolding deadline
deadline-asked dur s_now left = ground arith

-- The cut of `wait_for` is later than that of `sync_cond_timedwait`.
cut_off :
    (dur s_now : ℕ)
    → (if ltb_ℤ (pos latest) (pos (asked dur s_now)) then pos latest else pos (asked dur s_now))
      ≡ pos (earlier (s_now + dur) latest)
cut_off dur s_now = ground arith

-- For any duration that is left, the timespec that `wait_for` hands to the system is one that the
-- system takes. It stands for the time of the system's clock plus the duration, cut off at the latest
-- time of `sync_cond_timedwait`, and is exact where its seconds are below the largest that fit.
pub wait_for-timespec :
    (sec_max dur s_now : ℕ)
    → 0 < dur
    → (ts : Timespec) × (wait_for_timespec sec_max (pos dur) s_now ≡ some ts)
      × IsValid ts
      × (value ts ≡ nearest sec_max (earlier (s_now + dur) latest))
unfolding wait_for_timespec timedwait_timespec
wait_for-timespec sec_max dur s_now left = (
  to_timespec sec_max (pos (earlier (s_now + dur) latest)),
  rw (deadline-asked dur s_now left, wait_for_timespec) (rw (cut_off dur s_now) refl),
  (to_timespec-value sec_max (earlier (s_now + dur) latest)).0,
  (to_timespec-value sec_max (earlier (s_now + dur) latest)).1,
)
