-- ===== src/FastSharedMutex/Writers.antt =====
-- sync/mutex_extra.hpp, class `fast_shared_mutex`: the steps of writers keep the invariant.
use synchronization_library.Prelude.{
  ℕ, ◌+◌, ◌-◌, ◌^◌, ◌<◌, ◌≡◌, arith, true, false, ◌==◌, some, none,
}
use synchronization_library.Semaphore.{post_many}
use synchronization_library.FastSharedMutex.Run.{
  FastSharedMutex, max, add, sub, drain, waiters_of, idle, entering, counting, draining, trying,
  trying_count, failing, writing, admitting, releasing,
}
use synchronization_library.FastSharedMutex.Invariant.{Counts, Shift, Sums, Facts}

-- A step of a thread from one place to another, where the sums go from c to d.
module _ (n : ℕ) (m : FastSharedMutex) (c d : Counts) (few : n + m.lost < 2 ^ 30) (f : Facts m c)
    (s : Sums n c) (s' : Sums n d) where
  pub enter-Facts : Shift c d idle entering → m.wrmtx ≡ false → Facts (record m { wrmtx = true }) d
  enter-Facts mv free = ground arith

  pub try-Facts : Shift c d idle trying → m.wrmtx ≡ false → Facts (record m { wrmtx = true }) d
  try-Facts mv free = ground arith

  pub shut-Facts :
      Shift c d entering (counting m.rdcount) → Facts (record m { rdcount = sub m.rdcount max }) d
  shut-Facts mv = ground arith

  pub try_shut-Facts :
      Shift c d trying (trying_count m.rdcount) → Facts (record m { rdcount = sub m.rdcount max }) d
  try_shut-Facts mv = ground arith

  pub none_inside-Facts :
      (count : ℕ) → Shift c d (counting count) writing → (count == max) ≡ true → Facts m d
  none_inside-Facts count mv none_inside = ground arith

  pub drained-Facts :
      (count : ℕ)
      → Shift c d (counting count) writing
      → (count == max) ≡ false
      → ((drain count m).rdwait == 0) ≡ true
      → Facts (drain count m) d
  drained-Facts count mv some_inside all_left = ground arith

  pub drain-Facts :
      (count : ℕ)
      → Shift c d (counting count) draining
      → (count == max) ≡ false
      → ((drain count m).rdwait == 0) ≡ false
      → Facts (drain count m) d
  drain-Facts count mv some_inside some_left = ground arith

  pub woken-Facts :
      Shift c d draining writing
      → (m.wrsem.count == 0) ≡ false
      → Facts (record m { wrsem = record { count = m.wrsem.count - 1 } }) d
  woken-Facts mv posted = ground arith

  pub try_drained-Facts :
      (count : ℕ)
      → Shift c d (trying_count count) writing
      → (count == max) ≡ false
      → ((drain count m).rdwait == 0) ≡ true
      → Facts (drain count m) d
  try_drained-Facts count mv some_inside all_left = ground arith

  pub try_fail-Facts : (count : ℕ) → Shift c d (trying_count count) failing → Facts m d
  try_fail-Facts count mv = ground arith

  pub try_fail_late-Facts :
      (count : ℕ) → Shift c d (trying_count count) failing → Facts (drain count m) d
  try_fail_late-Facts count mv = ground arith

  pub failed-Facts : Shift c d failing idle → Facts (record m { rdcount = add m.rdcount max }) d
  failed-Facts mv = ground arith

  pub unlock-Facts :
      Shift c d writing releasing
      → waiters_of m.rdcount ≡ none
      → Facts (record m { rdcount = add m.rdcount max }) d
  unlock-Facts mv alone = ground arith

  pub unlock_some-Facts :
      (count : ℕ)
      → Shift c d writing (admitting count)
      → waiters_of m.rdcount ≡ some count
      → Facts (record m { rdcount = add m.rdcount max }) d
  unlock_some-Facts count mv waiters = ground arith

  pub admit-Facts :
      (count : ℕ)
      → Shift c d (admitting count) releasing
      → Facts (record m { rdsem = post_many m.rdsem count }) d
  unfolding post_many
  admit-Facts count mv = ground arith

  pub release-Facts : Shift c d releasing idle → Facts (record m { wrmtx = false }) d
  release-Facts mv = ground arith
