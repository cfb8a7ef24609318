-- ===== src/Clock/Timespec.antt =====
-- stdlib/internal/sync_cond.hpp and sync_thread.hpp, POSIX branch: a duration in nanoseconds as a
-- `timespec`. `sec_max` is the largest `tv_sec`, which depends on the system.
use synchronization_library.Prelude.{
  ℕ, suc, ◌+◌, ◌-◌, ◌*◌, ◌/◌, ◌%◌, ◌<◌, ◌≡◌, arith, ltb, ◌==◌, if◌then◌else◌, Bool-cases, inl, inr,
}
use synchronization_library.Prelude.Int.{ℤ, pos, negsuc, pos_part, neg_part, ltb_ℤ}

pub record Timespec : Type 0 where
  pub tv_sec : ℤ
  pub tv_nsec : ℤ

abbrev pub giga : ℕ
giga = 1000000000

abbrev minus : ℕ → ℤ
minus n = if n == 0 then pos 0 else negsuc (n - 1)

-- `duration_cast<seconds>(d)`, which rounds towards 0.
abbrev pub seconds : ℤ → ℤ
seconds (pos n) = pos (n / giga)
seconds (negsuc n) = minus (suc n / giga)

-- `(d - s).count()`
abbrev pub rest : ℤ → ℤ
rest (pos n) = pos (n % giga)
rest (negsuc n) = minus (suc n % giga)

-- The conversion that both files have.
unfoldable pub to_timespec : (sec_max : ℕ) → ℤ → Timespec
to_timespec sec_max d =
    if ltb_ℤ (seconds d) (pos sec_max)
    then record { tv_sec = seconds d; tv_nsec = rest d }
    else record { tv_sec = pos sec_max; tv_nsec = pos (giga - 1) }

-- The latest time of `sync_cond_timedwait`.
abbrev pub latest : ℕ
latest = 0x59682F000000E941

-- `sync_cond_timedwait`, up to its call of the system.
unfoldable pub timedwait_timespec : (sec_max : ℕ) → ℤ → Timespec
unfolding to_timespec
timedwait_timespec sec_max tp =
    to_timespec sec_max (if ltb_ℤ (pos latest) tp then pos latest else tp)

-- What the system takes: no part is negative, and the nanoseconds are less than a second.
abbrev pub IsValid : Timespec → Type 0
IsValid ts = (neg_part ts.tv_sec ≡ 0) × (neg_part ts.tv_nsec ≡ 0) × (pos_part ts.tv_nsec < giga)

-- The nanoseconds that such a timespec stands for.
abbrev pub value : Timespec → ℕ
value ts = pos_part ts.tv_sec * giga + pos_part ts.tv_nsec

-- The nearest to n nanoseconds that fits.
abbrev pub nearest : (sec_max n : ℕ) → ℕ
nearest sec_max n = if ltb (n / giga) sec_max then n else sec_max * giga + (giga - 1)

pub to_timespec-value :
    (sec_max n : ℕ)
    → IsValid (to_timespec sec_max (pos n))
      × (value (to_timespec sec_max (pos n)) ≡ nearest sec_max n)
unfolding to_timespec
to_timespec-value sec_max n = elim (Bool-cases (ltb (n / giga) sec_max)) [
  | inl fits ↦ ground arith
  | inr large ↦ ground arith
]
