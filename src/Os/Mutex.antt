-- ===== src/Os/Mutex.antt =====
-- stdlib/_mutex.hpp, class `mutex`, and stdlib/mutex.hpp, class `recursive_mutex`, over
-- stdlib/internal/sync_mutex.hpp, POSIX branch. `pthread_mutex_lock` and the others are the system's.
use mathlib.Core.Path.{subst}
use synchronization_library.Prelude.{
  ℕ, zero, suc, ◌-◌, ◌<◌, ◌≡◌, ◌≢◌, refl, arith, Bool, true, ◌&&◌, Option, none, some, ◌==◌,
  if◌then◌else◌, Bool-cases, inl, inr, sym, ◌∙◌, ℕ_discrete,
}
use synchronization_library.Os.Calls.{posix_assert, after_lock, after_trylock, after_unlock}
use synchronization_library.Threads.{System, Reach, Reach-induction, After, update, update-all}

module _ {L : Type 0} (holds : L → ℕ → ℕ) where
  -- After a lock or a try by thread `who` that gave this code: with 0 it holds the mutex once more, which
  -- no other thread held; with any other code nothing has changed.
  abbrev pub Gains : (who : ℕ) → L → ℕ × L → Type 0
  Gains who l (code, l') =
      ((j : ℕ) → holds l' j ≡ (if code == 0 && j == who then suc (holds l j) else holds l j))
      × (code ≡ 0 → (j : ℕ) → j ≢ who → holds l j ≡ 0)

  -- After an unlock by thread `who`, which held the mutex.
  abbrev pub Gives : (who : ℕ) → L → ℕ × L → Type 0
  Gives who l (code, l') =
      (code ≡ 0) × ((j : ℕ) → holds l' j ≡ (if j == who then holds l j - 1 else holds l j))

  abbrev pub GainsIfAny : (who : ℕ) → L → Option (ℕ × L) → Type 0
  GainsIfAny who l none = Unit
  GainsIfAny who l (some r) = Gains who l r

-- A pthread mutex, of the default kind or recursive: the functions give a code, and `holds` is how often
-- a thread holds the mutex. `none` is a lock that waits.
pub record PthreadMutex (L : Type 0) : Type 0 where
  pub init : L
  pub lock : (who : ℕ) → L → Option (ℕ × L)
  pub trylock : (who : ℕ) → L → ℕ × L
  pub unlock : (who : ℕ) → L → ℕ × L
  pub holds : L → ℕ → ℕ
  pub init_law : (j : ℕ) → holds init j ≡ 0
  pub lock_law : (who : ℕ) (l : L) → GainsIfAny holds who l (lock who l)
  pub trylock_law : (who : ℕ) (l : L) → Gains holds who l (trylock who l)
  pub unlock_law : (who : ℕ) (l : L) → 0 < holds l who → Gives holds who l (unlock who l)

-- A thread with its number, and how often it takes itself to hold the mutex. A failed assertion ends it.
pub data Pc : Type 0 where
  at : (who depth : ℕ) → Pc
  aborted : Pc

pub data Call : Type 0 where
  lock try_lock unlock : Call

module _ {L : Type 0} (os : PthreadMutex L) where
  -- The methods of both classes. A thread unlocks only what it holds.
  unfoldable pub step : (asserts : Bool) → Call → L → Pc → Option (L × Pc)
  step asserts lock l (at who depth) =
      after_lock asserts (os.lock who l) (at who (suc depth)) aborted
  step asserts try_lock l (at who depth) =
      after_trylock (os.trylock who l) (at who (suc depth)) (at who depth)
  step asserts unlock l (at who (suc depth)) =
      after_unlock asserts (os.unlock who l) (at who depth) aborted
  step asserts call l p = none

  abbrev pub initial : System L Pc
  initial = record { mem = os.init; pc = λ i. at i 0 }

  -- A thread that goes on is right about what it holds.
  abbrev pub Agrees : L → ℕ → Pc → Type 0
  Agrees l i (at who depth) = (who ≡ i) × (os.holds l i ≡ depth)
  Agrees l i aborted = Unit

  Agrees-congr :
      (l l' : L) (i : ℕ) (p : Pc) → os.holds l' i ≡ os.holds l i → Agrees l i p → Agrees l' i p
  Agrees-congr l l' i (at who depth) same a = (a.0, omega (arith, a.1, same))
  Agrees-congr l l' i aborted same a = tt

  record Inv (s : System L Pc) : Type 0 where
    agrees : (i : ℕ) → Agrees s.mem i (s.pc i)
    alone : (i j : ℕ) → i ≢ j → 0 < os.holds s.mem i → os.holds s.mem j ≡ 0

  module _ (s : System L Pc) (i : ℕ) (l' : L) (inv : Inv s) where
    moves :
        (q : Pc)
        → ((j : ℕ) → j ≢ i → os.holds l' j ≡ os.holds s.mem j)
        → Agrees l' i q
        → ((j k : ℕ) → j ≢ k → 0 < os.holds l' j → os.holds l' k ≡ 0)
        → Inv (record { mem = l'; pc = update s.pc i q })
    moves q same own apart = record {
      agrees =
          update-all (Agrees l') s.pc i q own
            (λ j other. Agrees-congr s.mem l' j (s.pc j) (same j other) (inv.agrees j));
      alone = apart;
    }

    -- Nothing has changed.
    stays :
        (q : Pc)
        → ((j : ℕ) → os.holds l' j ≡ os.holds s.mem j)
        → Agrees l' i q
        → Inv (record { mem = l'; pc = update s.pc i q })
    stays q same own =
        moves q (λ j other. same j) own
          (λ j k other has. omega (arith, same k, inv.alone j k other (omega (arith, has, same j))))

    -- A lock or a try, and where it leaves a thread that has not got the mutex.
    gains-Inv :
        (depth code : ℕ) (q : Pc)
        → os.holds s.mem i ≡ depth
        → Gains os.holds i s.mem (code, l')
        → (os.holds l' i ≡ depth → Agrees l' i q)
        → Inv (record { mem = l'; pc = update s.pc i (if code == 0 then at i (suc depth) else q) })
    gains-Inv depth code q has_it gains fails = elim (Bool-cases (code == 0)) [
      | inl success ↦
          let free : (j : ℕ) → j ≢ i → os.holds s.mem j ≡ 0 = gains.1 (ground (arith, success)) in
          rw success (
            moves (at i (suc depth)) (λ j other. ground (arith, gains.0 j, success, other))
              (refl, ground (arith, gains.0 i, success, has_it))
              (λ j k apart has. alone_now success free j k apart has))
      | inr failure ↦ rw failure (
          stays q (λ j. ground (arith, gains.0 j, failure))
            (fails (ground (arith, gains.0 i, failure, has_it))))
    ]
      where
        alone_now :
            (code == 0) ≡ true
            → ((j : ℕ) → j ≢ i → os.holds s.mem j ≡ 0)
            → (j k : ℕ) → j ≢ k
            → 0 < os.holds l' j
            → os.holds l' k ≡ 0
        alone_now success free j k apart has = elim (ℕ_discrete j i) [
          | yes self ↦ ground (
            arith,
            gains.0 k,
            free k (λ e. apart (self ∙ sym e)),
            λ (e : k ≡ i). apart (self ∙ sym e),
          )
          | no other ↦ absurd (ground (arith, gains.0 j, free j other, other, has))
        ]

    gives-Inv :
        (depth code : ℕ)
        → os.holds s.mem i ≡ suc depth
        → Gives os.holds i s.mem (code, l')
        → Inv
            (record { mem = l'; pc = update s.pc i (posix_assert true code (at i depth) aborted) })
    gives-Inv depth code has_it gives = rw (gives.0) (
        moves (at i depth) (λ j other. ground (arith, gives.1 j, other))
          (refl, ground (arith, gives.1 i, has_it))
          (λ j k apart has. ground (arith, gives.1 j, gives.1 k, inv.alone j k apart, has)))

  lock-Inv :
      (s : System L Pc) (i depth : ℕ) (r : Option (ℕ × L))
      → os.holds s.mem i ≡ depth
      → GainsIfAny os.holds i s.mem r
      → Inv s
      → After Inv s i (after_lock true r (at i (suc depth)) aborted)
  lock-Inv s i depth none has_it gains inv = tt
  lock-Inv s i depth (some (code, l')) has_it gains inv =
      gains-Inv s i l' inv depth code aborted has_it gains (λ _. tt)

  own_step-Inv :
      (s : System L Pc) (i depth : ℕ) (call : Call)
      → os.holds s.mem i ≡ depth
      → Inv s
      → After Inv s i (step true call s.mem (at i depth))
  unfolding step
  own_step-Inv s i depth lock has_it inv =
      lock-Inv s i depth (os.lock i s.mem) has_it (os.lock_law i s.mem) inv
  own_step-Inv s i depth try_lock has_it inv =
      gains-Inv s i (os.trylock i s.mem).1 inv depth (os.trylock i s.mem).0 (at i depth) has_it
        (os.trylock_law i s.mem) (λ same. (refl, same))
  own_step-Inv s i zero unlock has_it inv = tt
  own_step-Inv s i (suc depth) unlock has_it inv =
      gives-Inv s i (os.unlock i s.mem).1 inv depth (os.unlock i s.mem).0 has_it
        (os.unlock_law i s.mem (omega (arith, has_it)))

  step-Inv :
      (s : System L Pc) (i : ℕ) (call : Call) (p : Pc)
      → s.pc i ≡ p
      → Inv s
      → After Inv s i (step true call s.mem p)
  unfolding step
  step-Inv s i call (at who depth) stands inv =
      let here : Agrees s.mem i (at who depth) = subst (Agrees s.mem i) stands (inv.agrees i) in
      subst (λ w. After Inv s i (step true call s.mem (at w depth))) (sym (here.0))
        (own_step-Inv s i depth call (here.1) inv)
  step-Inv s i lock aborted stands inv = tt
  step-Inv s i try_lock aborted stands inv = tt
  step-Inv s i unlock aborted stands inv = tt

  -- However `n` threads lock, try to lock and unlock a `mutex` or a `recursive_mutex`, with the
  -- assertions, over a system that does as documented: a thread holds it exactly as often as its calls
  -- say, unless an assertion has ended the program; and where one thread holds it no other does.
  pub holds_as_told :
      (n : ℕ) {s : System L Pc}
      → Reach (step true) n initial s
      → ((i : ℕ) → Agrees s.mem i (s.pc i))
        × ((i j : ℕ) → i ≢ j → 0 < os.holds s.mem i → os.holds s.mem j ≡ 0)
  holds_as_told n {s} r = (inv.agrees, inv.alone)
    where
      inv : Inv s
      inv =
          Reach-induction (step true) Inv n (λ u i call p f lt stands. step-Inv u i call p stands f)
            (record { agrees = λ i. (refl, os.init_law i); alone = λ i j apart has. os.init_law j })
            r
