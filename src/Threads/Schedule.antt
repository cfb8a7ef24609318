-- ===== src/Threads/Schedule.antt =====
-- Reachable states by evaluation: the threads and calls of a schedule, in its order.
use synchronization_library.Prelude.{
  ℕ, ◌<◌, ◌≡◌, refl, Option, none, some, List, [], ◌∷◌, dec_lt, ℕ_discrete,
}
use synchronization_library.Threads.{System, Reach, at_once, and_then, moves}

module _ {M P E : Type 0} (step : E → M → P → Option (M × P)) where
  pub record Run (n : ℕ) (s : System M P) : Type 0 where
    pub last : System M P
    pub reach : Reach step n s last

  take_turn :
      (n : ℕ) (s : System M P) (r : Run n s) (i : ℕ) (e : E)
      → i < n
      → (o : Option (M × P)) → step e r.last.mem (r.last.pc i) ≡ o
      → Run n s
  take_turn n s r i e lt none eq = r
  take_turn n s r i e lt (some (m, p)) eq = record {
    last = _;
    reach = and_then r.reach (moves e i m p eq lt);
  }

  -- A thread that cannot move misses its turn.
  unfoldable pub run_from : (n : ℕ) (s : System M P) → Run n s → List (ℕ × E) → Run n s
  unfolding take_turn dec_lt
  run_from n s r [] = r
  run_from n s r ((i, e) ∷ turns) =
      run_from n s
        (elim (dec_lt i n) [
          | yes lt ↦ take_turn n s r i e lt (step e r.last.mem (r.last.pc i)) refl
          | no _ ↦ r
        ])
        turns

  unfoldable pub run : (n : ℕ) (s : System M P) → List (ℕ × E) → Run n s
  unfolding run_from ℕ_discrete
  run n s turns = run_from n s (record { last = s; reach = at_once }) turns
