-- ===== src/ThreadPool/Coverage.antt =====
-- sync/thread_pool.hpp, class `work_stealing_thread_pool`: a task goes to one queue, and a call that
-- fails everywhere has tried every queue alike.
use native.Mathlib.Nat.{mod-eq_of_lt}
use synchronization_library.Prelude.{
  ℕ, zero, suc, ◌+◌, ◌*◌, ◌%◌, ◌^◌, ◌≤◌, ◌<◌, ◌≡◌, refl, ap, ◌∙◌, arith, Bool, false, Option, none,
  List, [], ◌∷◌, ◌==◌, ltb, if◌then◌else◌, Bool-cases, inl, inr,
}
use synchronization_library.ThreadPool.Dispatch.{
  loop_k, Pool, Attempt, refused, accepted, waited, probe, place, post_work, look, next_task,
}

-- The queues that take the task.
abbrev pub receivers : List Attempt → List ℕ
receivers [] = []
receivers (refused q ∷ more) = receivers more
receivers (accepted q ∷ more) = q ∷ receivers more
receivers (waited q ∷ more) = q ∷ receivers more

-- How often queue q refuses.
abbrev pub refusals : ℕ → List Attempt → ℕ
refusals q [] = 0
refusals q (refused p ∷ more) = (if p == q then 1 else 0) + refusals q more
refusals q (accepted p ∷ more) = refusals q more
refusals q (waited p ∷ more) = refusals q more

place-receivers :
    (pool : Pool)
    → 0 < pool.count
    → (i : ℕ) (taken : ℕ → Bool) (left n : ℕ)
    → (q : ℕ) × (receivers (place pool i taken left n) ≡ q ∷ []) × (q < pool.count)
unfolding place
place-receivers pool some_queue i taken zero n = (i % pool.count, refl, omega arith)
place-receivers pool some_queue i taken (suc left) n = elim (Bool-cases (taken n)) [
  | inl took ↦ (probe pool i n, rw took refl, omega arith)
  | inr not_taken ↦
      let (q, e, lt) = place-receivers pool some_queue i taken left (n + 1) in
      (q, rw not_taken e, lt)
]

-- Whatever the queues answer, a task that is posted goes into exactly one of them.
post_work-receivers :
    (pool : Pool)
    → 0 < pool.count
    → (taken : ℕ → Bool)
    → (q : ℕ) × (receivers (post_work taken pool).1 ≡ q ∷ []) × (q < pool.count)
unfolding post_work
post_work-receivers pool some_queue taken =
    place-receivers pool some_queue pool.index taken (pool.count * loop_k % 2 ^ 32) 0

module _ (count q : ℕ) where
  abbrev hit : ℕ → ℕ
  hit x = if x % count == q then 1 else 0

  -- How many of the `left` numbers from x on lead to q.
  hits : (left x : ℕ) → ℕ
  hits zero x = 0
  hits (suc left) x = hit x + hits left (x + 1)

  hits-last : (left x : ℕ) → hits (suc left) x ≡ hits left x + hit (x + left)
  unfolding hits
  hits-last zero x = ground arith
  hits-last (suc left) x = ground (arith, hits-last left (x + 1))

  hits-add : (a b c x y : ℕ) → c ≡ a + b → y ≡ x + a → hits c x ≡ hits a x + hits b y
  unfolding hits
  hits-add zero b c x y e f =
      let same : c ≡ b = omega arith in
      let start : y ≡ x = omega arith in rw (same, start) (ground arith)
  hits-add (suc a) b zero x y e f = absurd (omega arith)
  hits-add (suc a) b (suc c) x y e f =
      ground (arith, hits-add a b c (x + 1) y (omega arith) (omega arith))

  -- From 0 on, q is hit by itself alone.
  hits-below :
      (left x : ℕ)
      → x + left ≤ count
      → hits left x ≡ (if ltb q x then 0 else if ltb q (x + left) then 1 else 0)
  unfolding hits
  hits-below zero x fits = ground arith
  hits-below (suc left) x fits =
      let e : x % count ≡ x = mod-eq_of_lt (omega arith) in
      rw e (ground (arith, hits-below left (x + 1) (omega arith)))

  hit-wrap : (x : ℕ) → 0 < count → hit (x + count) ≡ hit x
  hit-wrap x pos = ap (λ y. if y == q then 1 else 0) (grind arith)

  hits-first : (left x : ℕ) → hits (suc left) x ≡ hit x + hits left (x + 1)
  unfolding hits
  hits-first left x = refl

  -- A round of all queues hits q once, wherever it starts.
  hits-round : (x : ℕ) → q < count → hits count x ≡ 1
  hits-round zero lt = hits-below count 0 (omega arith) ∙ ground arith
  hits-round (suc x) lt =
      ground
        (arith, hits-last count x, hits-first count x, hit-wrap x (omega arith), hits-round x lt)

  hits-rounds : (x : ℕ) → q < count → hits (count * 2) x ≡ 2
  hits-rounds x lt = omega (
    arith,
    hits-add count count (count * 2) x (x + count) (omega arith) refl,
    hits-round x lt,
    hits-round (x + count) lt,
  )

-- The tries of a call whose numbers do not wrap round.
module _ (pool : Pool) (i q : ℕ) where
  probe-hit :
      (n : ℕ) → i + n < 2 ^ 32 → (if probe pool i n == q then 1 else 0) ≡ hit pool.count q (i + n)
  probe-hit n fits =
      ap (λ y. if y % pool.count == q then 1 else 0) (mod-eq_of_lt {n = i + n} {m = 2 ^ 32} fits)

  place-refusals :
      (taken : ℕ → Bool)
      → ((n : ℕ) → taken n ≡ false)
      → (left n : ℕ) → i + n + left ≤ 2 ^ 32
      → refusals q (place pool i taken left n) ≡ hits pool.count q left (i + n)
  unfolding place hits
  place-refusals taken all_full zero n fits = refl
  place-refusals taken all_full (suc left) n fits = rw (all_full n) (
      ground (
        arith,
        probe-hit n (omega arith),
        assoc,
        place-refusals taken all_full left (n + 1) (omega arith),
      ))
    where
      assoc : hits pool.count q left (i + n + 1) ≡ hits pool.count q left (i + (n + 1))
      assoc = ap (hits pool.count q left) (omega arith)

  look-refusals :
      {A : Type 0} (popped : ℕ → Option A) (last : Option A)
      → ((n : ℕ) → popped n ≡ none)
      → (left n : ℕ) → i + n + left ≤ 2 ^ 32
      → refusals q (look pool i popped last left n).0 ≡ hits pool.count q left (i + n)
  unfolding look hits
  look-refusals popped last all_empty zero n fits = refl
  look-refusals popped last all_empty (suc left) n fits =
      rw (all_empty n, refusals)
        (ground (
          arith,
          probe-hit n (omega arith),
          assoc,
          look-refusals popped last all_empty left (n + 1) (omega arith),
        ))
    where
      assoc : hits pool.count q left (i + n + 1) ≡ hits pool.count q left (i + (n + 1))
      assoc = ap (hits pool.count q left) (omega arith)

-- While the numbers of the tries fit an unsigned int: a task that every queue refuses has been refused
-- `LOOP_K` times by each of them before its thread waits, and a worker that finds no task has tried
-- each queue once before it waits at its own.
pub refusals-even :
    {A : Type 0} (pool : Pool) (worker q : ℕ) (taken : ℕ → Bool) (popped : ℕ → Option A)
    (last : Option A)
    → pool.index + pool.count * loop_k < 2 ^ 32
    → worker < pool.count
    → q < pool.count
    → ((n : ℕ) → taken n ≡ false)
    → ((n : ℕ) → popped n ≡ none)
    → (refusals q (post_work taken pool).1 ≡ loop_k)
      × (refusals q (next_task pool worker popped last).0 ≡ 1)
unfolding post_work next_task
refusals-even pool worker q taken popped last fits worker_lt q_lt all_full all_empty = (
  rw (mod-eq_of_lt {n = pool.count * 2} {m = 2 ^ 32} (omega arith)) (
      place-refusals pool pool.index q taken all_full (pool.count * 2) 0 (omega arith)
      ∙ hits-rounds pool.count q (pool.index + 0) q_lt),
  look-refusals pool worker q popped last all_empty pool.count 0 (omega arith)
      ∙ hits-round pool.count q (worker + 0) q_lt,
)
