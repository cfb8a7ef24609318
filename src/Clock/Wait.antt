-- ===== src/Clock/Wait.antt =====
-- stdlib/_mutex.hpp, class `condition_variable`: the waits. What the predicate answers and what the
-- clocks show are arguments, one `Round` for each time that a loop goes round.
use synchronization_library.Prelude.{
  ℕ, zero, suc, ◌+◌, ◌-◌, ◌≤◌, ◌<◌, ◌≡◌, ◌⊎◌, refl, arith, Bool, true, false, Option, none, some,
  List, [], ◌∷◌, ltb, if◌then◌else◌, get_elem?, Bool-cases, inl, inr,
}
use synchronization_library.Prelude.Int.{ℤ, pos, negsuc, sub_ℕ}
use synchronization_library.Clock.Deadline.{deadline}

pub data CvStatus : Type 0 where
  no_timeout timeout : CvStatus

-- `asked` is the predicate at the loop's test, and `asked_last` after a time-out. `now` and `after` are
-- the clock of the deadline before and after the wait, `s_now` the system's clock before it.
pub record Round : Type 0 where
  pub asked : Bool
  pub now : ℕ
  pub s_now : ℕ
  pub after : ℕ
  pub asked_last : Bool

-- `wait` with a predicate: how often it waits; `none` where the rounds run out.
unfoldable pub wait : List Bool → Option ℕ
wait [] = none
wait (true ∷ asked) = some 0
wait (false ∷ asked) = elim (wait asked) [ none ↦ none | some waits ↦ some (waits + 1) ]

-- `wait_for`: the time that the system is to wait until, and the status, by the steady clock.
unfoldable pub wait_for : (dur : ℤ) → (s_now c_now c_after : ℕ) → Option ℕ × CvStatus
unfolding deadline
wait_for (negsuc n) s_now c_now c_after = (none, timeout)
wait_for (pos zero) s_now c_now c_after = (none, timeout)
wait_for (pos (suc dur)) s_now c_now c_after = (
  deadline (pos (suc dur)) s_now,
  if ltb (c_after - c_now) (suc dur) then no_timeout else timeout,
)

-- `wait_until` a time, which takes no notice of the status of its `wait_for`.
unfoldable pub wait_until : (time : ℕ) → Round → Option ℕ × CvStatus
unfolding deadline
wait_until time r =
    (deadline (sub_ℕ time r.now) r.s_now, if ltb r.after time then no_timeout else timeout)

-- With one wait before.
abbrev pub one_more : Option (Bool × ℕ) → Option (Bool × ℕ)
one_more none = none
one_more (some (b, waits)) = some (b, waits + 1)

-- `wait_until` with a predicate: the answer, and how often it has waited before its last round.
unfoldable pub wait_until_holds : (time : ℕ) → List Round → Option (Bool × ℕ)
unfolding wait_until
wait_until_holds time [] = none
wait_until_holds time (r ∷ rounds) =
    let rest = one_more (wait_until_holds time rounds) in
    if r.asked
    then some (true, 0)
    else elim (wait_until time r).1 [ timeout ↦ some (r.asked_last, 0) | no_timeout ↦ rest ]

-- `wait_for` with a predicate; `c_now` is the steady clock.
unfoldable pub wait_for_holds : (c_now dur : ℕ) → List Round → Option (Bool × ℕ)
unfolding wait_until_holds
wait_for_holds c_now dur rounds = wait_until_holds (c_now + dur) rounds

-- In some round the predicate holds, or the time is over.
abbrev pub Ends : ℕ → List Round → Type 0
Ends time [] = ⊥
Ends time (r ∷ rounds) = (r.asked ≡ true) ⊎ (time ≤ r.after) ⊎ Ends time rounds

-- A round in which the wait may come back with b: the predicate holds, or the time is over and b is what
-- the predicate says then.
abbrev pub Answers : (time : ℕ) → Bool → Round → Type 0
Answers time b r =
    ((r.asked ≡ true) × (b ≡ true)) ⊎ ((r.asked ≡ false) × (time ≤ r.after) × (b ≡ r.asked_last))

-- In each of the first rounds the predicate fails, and there is time left.
abbrev pub GoesOn : (time waits : ℕ) → List Round → Type 0
GoesOn time zero rounds = Unit
GoesOn time (suc waits) [] = ⊥
GoesOn time (suc waits) (r ∷ rounds) =
    (r.asked ≡ false) × (r.after < time) × GoesOn time waits rounds

-- `wait_until` with a predicate comes back if in some round the predicate holds or the time is over, and
-- does so in the first such round: with true where the predicate holds; else its clock has reached the
-- time, and it answers what the predicate says then.
pub wait_until_holds-Answers :
    (time : ℕ) (rounds : List Round)
    → Ends time rounds
    → (b : Bool) × (waits : ℕ) × (r : Round) × (wait_until_holds time rounds ≡ some (b, waits))
      × (get_elem? rounds waits ≡ some r)
      × Answers time b r
      × GoesOn time waits rounds
unfolding wait_until_holds wait_until
wait_until_holds-Answers time [] ends = absurd ends
wait_until_holds-Answers time (r ∷ rounds) ends = elim (Bool-cases r.asked) [
  | inl holds ↦ (true, 0, r, ground (arith, holds), refl, inl (holds, refl), tt)
  | inr fails ↦ elim (Bool-cases (ltb r.after time)) [
    | inl early ↦
        let (b, waits, r', returned, at, answers, before) =
          wait_until_holds-Answers time rounds (later fails early ends) in
        (
          b,
          suc waits,
          r',
          rw (fails, early, returned) (ground arith),
          at,
          answers,
          (fails, ground (arith, early), before),
        )
    | inr late ↦ (
      r.asked_last,
      0,
      r,
      ground (arith, fails, late),
      refl,
      inr (fails, ground (arith, late), refl),
      tt,
    )
  ]
]
  where
    later : r.asked ≡ false → ltb r.after time ≡ true → Ends time (r ∷ rounds) → Ends time rounds
    later fails early (inl holds) = cc
    later fails early (inr (inl over)) = absurd (ground (arith, early))
    later fails early (inr (inr more)) = more
