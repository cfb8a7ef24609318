-- ===== src/Tests/Barrier.antt =====
-- `barrier` and `flex_barrier` (stdlib/barrier.hpp) at concrete schedules.
use synchronization_library.Prelude.{◌+◌, ◌≡◌, refl, arith, true, false, none, some, [], ◌∷◌}
use synchronization_library.Threads.{total}
use synchronization_library.Threads.Schedule.{run, Run}
use synchronization_library.Barrier.Run.{step, initial, arrive_and_wait, wake, sleeping}
use synchronization_library.Barrier.Safety.{is_waiting, no_early_release}
use synchronization_library.Barrier.Overtaken.{overtaken_forever}
use synchronization_library.Barrier.Flex
use synchronization_library.Barrier.Flex.{FlexBarrier, round_never_reset}

-- Thread 0 arrives and wakes too early.
abbrev half : Run step 2 (initial 2)
unfolding run step
half = run step 2 (initial 2) ((0, arrive_and_wait) ∷ (0, wake) ∷ [])

no_early_release_example :
    (half.last.mem.count + total (is_waiting half.last.mem.rounds) 2 half.last.pc
      ≡ half.last.mem.threads)
    × (step wake half.last.mem (half.last.pc 0) ≡ some (half.last.mem, half.last.pc 0))
unfolding run step
no_early_release_example = no_early_release 2 (omega arith) half.reach 0 (omega arith) refl

-- Thread 1 ends the first round and arrives again, before thread 0 has woken.
abbrev overtaken : Run step 2 (initial 2)
unfolding run step
overtaken =
    run step 2 (initial 2) ((0, arrive_and_wait) ∷ (1, arrive_and_wait) ∷ (1, arrive_and_wait) ∷ [])

-- Both wake, in vain.
abbrev later : Run step 2 overtaken.last
unfolding run step
later = run step 2 overtaken.last ((0, wake) ∷ (1, wake) ∷ [])

overtaken_forever_example :
    (later.last.pc 0 ≡ sleeping 0) × (later.last.pc 1 ≡ sleeping 1) × (later.last.mem.rounds ≡ 1)
unfolding run step
overtaken_forever_example =
    overtaken_forever 2 0 1 0 (omega arith) overtaken.reach (omega arith) (omega arith)
      (omega arith) refl refl later.reach

abbrev last_missing : FlexBarrier
last_missing = record { count = 1; threads = 3 }

never_reset :
    ((Flex.arrive_and_wait none last_missing).notified ≡ true)
    × ((Flex.arrive_and_wait none last_missing).barrier.count ≡ 0)
    × (Flex.test (Flex.arrive_and_wait none last_missing).barrier ≡ false)
    × ((Flex.arrive_and_wait none (Flex.arrive_and_wait none last_missing).barrier).notified
        ≡ false)
    × ((Flex.arrive_and_wait none (Flex.arrive_and_wait none last_missing).barrier).passes ≡ false)
never_reset = round_never_reset none last_missing refl (omega arith) (omega arith)
