-- ===== src/FastSharedMutex/Readers.antt =====
-- sync/mutex_extra.hpp, class `fast_shared_mutex`: the steps of readers keep the invariant.
use synchronization_library.Prelude.{ℕ, ◌+◌, ◌-◌, ◌^◌, ◌<◌, ◌≡◌, arith, true, false, ◌==◌}
use synchronization_library.Semaphore.{post}
use synchronization_library.FastSharedMutex.Run.{
  FastSharedMutex, is_negative, add, sub, is_shut, idle, awaiting, reading, leaving, waking,
}
use synchronization_library.FastSharedMutex.Invariant.{Counts, Shift, Sums, Facts}

-- A step of a thread from one place to another, where the sums go from c to d.
module _ (n : ℕ) (m : FastSharedMutex) (c d : Counts) (few : n + m.lost < 2 ^ 30) (f : Facts m c)
    (s : Sums n c) (s' : Sums n d) where
  pub await-Facts :
      Shift c d idle awaiting → is_shut m ≡ true → Facts (record m { rdcount = sub m.rdcount 1 }) d
  await-Facts mv closed = ground arith

  pub read-Facts :
      Shift c d idle reading → is_shut m ≡ false → Facts (record m { rdcount = sub m.rdcount 1 }) d
  read-Facts mv open_now = ground arith

  pub lose-Facts :
      Shift c d idle idle
      → is_shut m ≡ true
      → Facts (record m { rdcount = sub m.rdcount 1; lost = m.lost + 1 }) d
  lose-Facts mv closed = ground arith

  pub admitted-Facts :
      Shift c d awaiting reading
      → (m.rdsem.count == 0) ≡ false
      → Facts (record m { rdsem = record { count = m.rdsem.count - 1 } }) d
  admitted-Facts mv some_post = ground arith

  pub leave_late-Facts :
      Shift c d reading leaving
      → is_negative m.rdcount ≡ true
      → Facts (record m { rdcount = add m.rdcount 1 }) d
  leave_late-Facts mv negative = ground arith

  pub leave-Facts :
      Shift c d reading idle
      → is_negative m.rdcount ≡ false
      → Facts (record m { rdcount = add m.rdcount 1 }) d
  leave-Facts mv positive = ground arith

  pub left_last-Facts :
      Shift c d leaving waking
      → (m.rdwait == 1) ≡ true
      → Facts (record m { rdwait = sub m.rdwait 1 }) d
  left_last-Facts mv last = ground arith

  pub left-Facts :
      Shift c d leaving idle
      → (m.rdwait == 1) ≡ false
      → Facts (record m { rdwait = sub m.rdwait 1 }) d
  left-Facts mv more = ground arith

  pub wake-Facts : Shift c d waking idle → Facts (record m { wrsem = post m.wrsem }) d
  unfolding post
  wake-Facts mv = ground arith

  pub stay-Facts : Shift c d idle idle → Facts m d
  stay-Facts mv = ground arith
