-- ===== src/Threads.antt =====
-- Threads over one shared memory, interleaved in any order. A component gives the step of one
-- thread as a function; what the scheduler and the callers choose is its first argument.
pub mod Schedule
mod Total
unfoldable pub use Total.*
use synchronization_library.Prelude.{ℕ, ◌<◌, ◌≡◌, refl, Option, none, some}

pub record System (M P : Type 0) : Type 0 where
  pub mem : M
  pub pc : ℕ → P

-- `Inv` holds after thread `i` has made a step with this outcome; `none` is a thread that cannot
-- move now.
abbrev pub After : {M P : Type 0} → (System M P → Type 0) → System M P → ℕ → Option (M × P) → Type 0
After Inv s i none = Unit
After Inv s i (some (m, p)) = Inv (record { mem = m; pc = update s.pc i p })

-- Two facts that hold after a step are one.
pub After-and :
    {M P : Type 0} (Inv Also Both : System M P → Type 0) (s : System M P) (i : ℕ)
    (o : Option (M × P))
    → ((u : System M P) → Inv u → Also u → Both u)
    → After Inv s i o
    → After Also s i o
    → After Both s i o
After-and Inv Also Both s i none both h k = tt
After-and Inv Also Both s i (some (m, p)) both h k =
    both (record { mem = m; pc = update s.pc i p }) h k

After-some :
    {M P : Type 0} (Inv : System M P → Type 0) (s : System M P) (i : ℕ) (o : Option (M × P)) (m : M)
    (p : P)
    → o ≡ some (m, p)
    → After Inv s i o
    → Inv (record { mem = m; pc = update s.pc i p })
After-some Inv s i o m p eq h = rw eq at h

module _ {M P E : Type 0} (step : E → M → P → Option (M × P)) where
  -- Thread `i` of `n` makes the step that `e` names.
  pub data Step (threads : ℕ) (before : System M P) : System M P → Type 0 where
    moves :
        (e : E) (who : ℕ) (m : M) (p : P)
        → step e before.mem (before.pc who) ≡ some (m, p)
        → who < threads
        → Step threads before (record { pc = update before.pc who p; mem = m })

  pub data Reach (threads : ℕ) (first : System M P) : System M P → Type 0 where
    at_once : Reach threads first first
    and_then :
        {mid last : System M P}
        → Reach threads first mid
        → Step threads mid last
        → Reach threads first last

  -- What holds at the start and is kept by each move of a thread holds in every reachable state.
  pub Reach-induction :
      (Inv : System M P → Type 0) (n : ℕ) {s t : System M P}
      → ((u : System M P) (i : ℕ) (e : E) (p : P)
          → Inv u
          → i < n
          → u.pc i ≡ p
          → After Inv u i (step e u.mem p))
      → Inv s
      → Reach n s t
      → Inv t
  Reach-induction Inv n keep h at_once = h
  Reach-induction Inv n keep h (and_then {mid = t} r (moves e i m p eq lt)) =
      After-some Inv t i (step e t.mem (t.pc i)) m p eq
        (keep t i e (t.pc i) (Reach-induction Inv n keep h r) lt refl)
