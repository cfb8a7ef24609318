-- ===== src/CallOnce.antt =====
-- stdlib/mutex.hpp, `once_flag` and `call_once`, under many threads.
use synchronization_library.Prelude.{
  ℕ, ◌+◌, ◌≤◌, ◌<◌, ◌≡◌, refl, arith, Bool, true, false, Option, none, some, if◌then◌else◌,
  Bool-cases, inl, inr,
}
use synchronization_library.Threads.{
  System, Reach, Reach-induction, After, update, total, total-update, total-const, weight-le-total,
}

-- `flag_`. `calls` is no field: it counts the calls of the callable.
pub record OnceFlag : Type 0 where
  pub flag : Bool
  pub calls : ℕ

-- Where a thread stands: `entering` has set the flag and is about to call; `calling` is in the callable;
-- `returned` has come back from `call_once`, and `thrown` by an exception of the callable.
pub data Pc : Type 0 where
  idle entering calling returned thrown : Pc

pub data Call : Type 0 where
  call_once enter finish throw again : Call

-- One step of one thread: the compare-exchange, then the start of the callable.
unfoldable pub step : Call → OnceFlag → Pc → Option (OnceFlag × Pc)
step call_once m idle =
    if m.flag then some (m, returned) else some (record m { flag = true }, entering)
step enter m entering = some (record m { calls = m.calls + 1 }, calling)
step finish m calling = some (m, returned)
step throw m calling = some (m, thrown)
step again m returned = some (m, idle)
step again m thrown = some (m, idle)
step call m p = none

abbrev pub initial : System OnceFlag Pc
initial = record { mem = record { flag = false; calls = 0 }; pc = λ _. idle }

-- A thread that is past the compare-exchange.
abbrev pub begun : Pc → ℕ
begun idle = 0
begun p = 1

abbrev pub is_entering : Pc → ℕ
is_entering entering = 1
is_entering p = 0

record Facts (n : ℕ) (s : System OnceFlag Pc) : Type 0 where
  once : s.mem.calls + total is_entering n s.pc ≡ (if s.mem.flag then 1 else 0)
  none_early : s.mem.flag ≡ false → total begun n s.pc ≡ 0

module _ (n : ℕ) (s : System OnceFlag Pc) (i : ℕ) (lt : i < n) where
  moved :
      (weight : Pc → ℕ) (p : Pc)
      → s.pc i ≡ p
      → (q : Pc) → total weight n (update s.pc i q) + weight p ≡ total weight n s.pc + weight q
  moved weight p at q = rw (← at) (total-update weight n s.pc i q lt)

  -- A thread that has begun goes on, or begins anew.
  goes_on :
      (p q : Pc) (calls : ℕ)
      → s.pc i ≡ p
      → begun p ≡ 1
      → s.mem.calls + is_entering p ≡ calls + is_entering q
      → Facts n s
      → Facts n (record { mem = record { flag = s.mem.flag; calls = calls }; pc = update s.pc i q })
  goes_on p q calls at was_begun same f = record {
    once = omega (arith, f.once, same, moved is_entering p at q);
    none_early = λ early. absurd (omega (arith, f.none_early early, part, was_begun));
  }
    where
      part : begun p ≤ total begun n s.pc
      part = rw (← at) (weight-le-total begun n s.pc i lt)

  step-Facts :
      (call : Call) (p : Pc) → s.pc i ≡ p → Facts n s → After (Facts n) s i (step call s.mem p)
  unfolding step
  step-Facts call_once idle at f = elim (Bool-cases s.mem.flag) [
    | inl set ↦
        rw (set, After)
          (record {
            once = ground (arith, f.once, set, moved is_entering idle at returned);
            none_early = λ early. ground (arith, early);
          })
    | inr clear ↦
        rw (clear, After)
          (record {
            once = ground (arith, f.once, clear, moved is_entering idle at entering);
            none_early = λ early. ground (arith, early);
          })
  ]
  step-Facts enter entering at f =
      goes_on entering calling (s.mem.calls + 1) at refl (omega arith) f
  step-Facts finish calling at f = goes_on calling returned s.mem.calls at refl refl f
  step-Facts throw calling at f = goes_on calling thrown s.mem.calls at refl refl f
  step-Facts again returned at f = goes_on returned idle s.mem.calls at refl refl f
  step-Facts again thrown at f = goes_on thrown idle s.mem.calls at refl refl f
  step-Facts call p at f = tt

-- However `n` threads use one `once_flag`, again and again, and whether or not the callable throws: it
-- is called at most once; and as soon as a thread is past the compare-exchange, back from `call_once` in
-- either way or not, the callable has been called, or exactly one thread is about to call it.
pub called_once :
    (n : ℕ) {s : System OnceFlag Pc}
    → Reach step n initial s
    → (i : ℕ) → i < n
    → (s.mem.calls + total is_entering n s.pc ≤ 1)
      × (begun (s.pc i) ≤ s.mem.calls + total is_entering n s.pc)
called_once n {s} r i lt = (ground (arith, facts.once), won)
  where
    facts : Facts n s
    facts =
        Reach-induction step (Facts n) n (λ u j call p f j_lt at. step-Facts n u j j_lt call p at f)
          (record {
            once = omega (arith, total-const is_entering n idle refl);
            none_early = λ early. total-const begun n idle refl;
          })
          r

    at_most_one : (p : Pc) → begun p ≤ 1
    at_most_one p = ground arith

    won : begun (s.pc i) ≤ s.mem.calls + total is_entering n s.pc
    won = elim (Bool-cases s.mem.flag) [
      | inl set ↦ ground (arith, facts.once, set, at_most_one (s.pc i))
      | inr clear ↦ omega (arith, facts.none_early clear, weight-le-total begun n s.pc i lt)
    ]
