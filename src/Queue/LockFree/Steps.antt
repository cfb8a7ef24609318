-- ===== src/Queue/LockFree/Steps.antt =====
-- sync/queue.hpp, class `lock_free_queue`: each step keeps the sums.
use synchronization_library.Prelude.{ℕ, ◌+◌, ◌*◌, ◌%◌, ◌^◌, ◌≤◌, ◌<◌, ◌≡◌, arith, Option}
use synchronization_library.Queue.LockFree.Run.{
  LockFreeQueue, Side, pushing, popping, Pc, idle, push_admitted, constructing, pop_admitted,
  moving, counting, loading, swapping, posting, add_one, sub_one, set_index,
}
use synchronization_library.Queue.LockFree.Invariant.{Counts, Facts, Shift, stage, too_large}

-- The queue was made for `size`, which is not 0, and twice of which fits an unsigned int.
module _ {A : Type 0} (size : ℕ) (nonempty : 0 < size) (fits : 2 * size ≤ 2 ^ 32)
    {q : LockFreeQueue A} {c d : Counts} (f : Facts size q c) where
  pub admit_push-Facts :
      (x : A) (k : ℕ)
      → Shift size idle (push_admitted x) c d
      → q.open_slots.count ≡ k + 1
      → Facts size (record q { open_slots = record { count = k } }) d
  admit_push-Facts x k mv some_open = ground arith

  pub admit_pop-Facts :
      (k : ℕ)
      → Shift {A = A} size idle pop_admitted c d
      → q.full_slots.count ≡ k + 1
      → Facts size (record q { full_slots = record { count = k } }) d
  admit_pop-Facts k mv some_full = ground arith

  -- A step that changes no number of the queue and no stage.
  pub keep-Facts :
      (p p' : Pc A) (slots : ℕ → Option A)
      → stage p ≡ stage p'
      → too_large size p' ≡ 0
      → Shift size p p' c d
      → Facts size (record q { data_slots = slots }) d
  keep-Facts p p' slots same small mv = ground arith

  pub claim_push-Facts :
      (x : A)
      → Shift size (push_admitted x) (constructing x q.push_index) c d
      → Facts size (record q { push_index = add_one q.push_index }) d
  claim_push-Facts x mv = ground arith

  pub claim_pop-Facts :
      Shift {A = A} size pop_admitted (moving q.pop_index) c d
      → Facts size (record q { pop_index = add_one q.pop_index }) d
  claim_pop-Facts mv = ground arith

  pub count_push-Facts :
      Shift {A = A} size (counting pushing) (loading pushing) c d
      → Facts size (record q { count = add_one q.count }) d
  count_push-Facts mv = ground arith

  pub count_pop-Facts :
      (item : Option A)
      → Shift size (counting (popping item)) (loading (popping item)) c d
      → Facts size (record q { count = sub_one q.count }) d
  count_pop-Facts item mv = ground arith

  pub store-Facts :
      (side : Side A) (e reduced : ℕ)
      → Shift size (swapping side e reduced) (posting side) c d
      → Facts size (set_index side reduced q) d
  store-Facts pushing e reduced mv = ground arith
  store-Facts (popping item) e reduced mv = ground arith

  pub post_push-Facts :
      Shift {A = A} size (posting pushing) idle c d
      → Facts size
          (record q { full_slots = record { count = (q.full_slots.count + 1) % 2 ^ 64 } })
          d
  post_push-Facts mv = ground arith

  pub post_pop-Facts :
      (item : Option A)
      → Shift size (posting (popping item)) idle c d
      → Facts size
          (record q { open_slots = record { count = (q.open_slots.count + 1) % 2 ^ 64 } })
          d
  post_pop-Facts item mv = ground arith
