-- ===== src/Barrier/Flex.antt =====
-- stdlib/barrier.hpp, class `flex_barrier`. The completion function is a parameter: it gives the new
-- number of threads, or `none` for -1, which keeps it.
use synchronization_library.Prelude.{
  ℕ, ◌^◌, ◌<◌, ◌≡◌, ◌≢◌, arith, Bool, true, false, Option, none, some, ◌==◌, if◌then◌else◌,
}
use synchronization_library.Barrier.Run.{minus_one}

pub record FlexBarrier : Type 0 where
  pub count : ℕ
  pub threads : ℕ

-- Whether the thread goes on at once, and whether it notified all.
pub record Arrival : Type 0 where
  pub barrier : FlexBarrier
  pub passes : Bool
  pub notified : Bool

-- `if (val != -1) threads_ = val;`
abbrev pub resize : Option ℕ → ℕ → ℕ
resize none threads = threads
resize (some val) threads = val

-- The test of the wait.
unfoldable pub test : FlexBarrier → Bool
test b = b.count == b.threads

unfoldable pub arrive_and_wait : Option ℕ → FlexBarrier → Arrival
unfolding test
arrive_and_wait completion b =
    if minus_one b.count == 0
    then record {
      barrier = record { count = minus_one b.count; threads = resize completion b.threads };
      passes = true;
      notified = true;
    }
    else record {
      barrier = record b { count = minus_one b.count };
      passes = test (record b { count = minus_one b.count });
      notified = false;
    }

unfoldable pub arrive_and_drop : Option ℕ → FlexBarrier → Arrival
arrive_and_drop completion b =
    if minus_one b.count == 0
    then record {
      barrier = record { count = minus_one b.count; threads = resize completion b.threads };
      passes = true;
      notified = true;
    }
    else record {
      barrier = record { count = minus_one b.count; threads = minus_one b.threads };
      passes = true;
      notified = false;
    }

-- The last arrival of a round, whatever the completion function gives but 0: the barrier is left with
-- `count_` 0, so that of the threads that it has just notified none passes its test. And the next
-- arrival takes `count_` below 0, so that it neither ends a round nor passes.
pub round_never_reset :
    (completion : Option ℕ) (b : FlexBarrier)
    → b.count ≡ 1
    → resize completion b.threads ≢ 0
    → resize completion b.threads < 2 ^ 63
    → let last = arrive_and_wait completion b in
      let next = arrive_and_wait completion last.barrier in
      (last.notified ≡ true)
      × (last.barrier.count ≡ 0)
      × (test last.barrier ≡ false)
      × (next.notified ≡ false)
      × (next.passes ≡ false)
unfolding arrive_and_wait test
round_never_reset completion b one some_left small = ground arith
