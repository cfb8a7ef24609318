-- ===== src/Os/Exclusion.antt =====
-- sync/mutex_extra.hpp, class `os::rw_mutex`: its threads exclude each other as their calls say.
use mathlib.Core.Path.{subst}
use synchronization_library.Prelude.{
  ℕ, ◌+◌, zero, suc, ◌≡◌, ◌≢◌, refl, sym, ◌∙◌, arith, true, false, Option, none, some, ◌==◌,
  ℕ_discrete,
}
use synchronization_library.Os.Calls.{after_lost_try, after_lock}
use synchronization_library.Os.Rwlock.{
  Holds, AreSame, lowered, Writes, Reads, WritesIfAny, ReadsIfAny, PthreadRwlock, Pc, outside,
  writing, reading, aborted, undefined, Call, lock, try_lock, unlock, lock_shared, try_lock_shared,
  unlock_shared, step, initial, Agrees, Excludes,
}
use synchronization_library.Threads.{System, Reach, Reach-induction, After, update, update-all}

Agrees-congr :
    (h h' : Holds) (i : ℕ) (p : Pc)
    → h'.reads i ≡ h.reads i
    → h'.writes i ≡ h.writes i
    → Agrees h i p
    → Agrees h' i p
Agrees-congr h h' i (outside who) same same' a = omega (arith, a, same, same')
Agrees-congr h h' i (writing who) same same' a = omega (arith, a, same, same')
Agrees-congr h h' i (reading who) same same' a = omega (arith, a, same, same')
Agrees-congr h h' i aborted same same' a = tt
Agrees-congr h h' i undefined same same' a = tt

record Inv (h : Holds) (pc : ℕ → Pc) : Type 0 where
  agrees : (i : ℕ) → Agrees h i (pc i)
  excludes : Excludes h

module _ (h h' : Holds) (pc : ℕ → Pc) (i : ℕ) (inv : Inv h pc) where
  moves :
      (q : Pc)
      → ((j : ℕ) → j ≢ i → (h'.reads j ≡ h.reads j) × (h'.writes j ≡ h.writes j))
      → Agrees h' i q
      → Excludes h'
      → Inv h' (update pc i q)
  moves q same own apart = record {
    agrees =
        update-all (Agrees h') pc i q own
          (λ j other. Agrees-congr h h' j (pc j) (same j other).0 (same j other).1 (inv.agrees j));
    excludes = apart;
  }

  stays : (q : Pc) → AreSame h h' → Agrees h i q → Inv h' (update pc i q)
  stays q same own =
      moves q (λ j other. (same.0 j, same.1 j)) (Agrees-congr h h' i q (same.0 i) (same.1 i) own)
        (λ j k apart has.
          omega (arith, inv.excludes j k apart (omega (arith, has, same.1 j)), same.0 k, same.1 k))

  -- The thread has got it for writing, and goes to q.
  writes-Inv :
      (q : Pc)
      → Writes i h 0 h'
      → (h'.reads i ≡ 0 → h'.writes i ≡ 1 → Agrees h' i q)
      → Inv h' (update pc i q)
  writes-Inv q gains goes =
      moves q (λ j other. (gains.1 j, ground (arith, gains.2 j, other)))
        (goes (omega (arith, gains.1 i, gains.0 i)) (ground (arith, gains.2 i, gains.0 i)))
        (λ j k apart has. only_one j k apart has)
    where
      only_one : Excludes h'
      only_one j k apart has = elim (ℕ_discrete k i) [
        | yes self ↦
            absurd (ground (arith, gains.2 j, gains.0 j, has, λ (e : j ≡ i). apart (e ∙ sym self)))
        | no other ↦
            (ground (arith, gains.1 k, gains.0 k), ground (arith, gains.2 k, gains.0 k, other))
      ]

  reads-Inv :
      (q : Pc)
      → Reads i h 0 h'
      → (h'.reads i ≡ h.reads i + 1 → h'.writes i ≡ 0 → Agrees h' i q)
      → Inv h' (update pc i q)
  reads-Inv q gains goes =
      moves q (λ j other. (ground (arith, gains.1 j, other), gains.2 j))
        (goes (ground (arith, gains.1 i)) (omega (arith, gains.2 i, gains.0 i)))
        (λ j k apart has. absurd (omega (arith, gains.2 j, gains.0 j, has)))

  wrunlock-Inv :
      Agrees h i (writing i)
      → ((j : ℕ) → h'.reads j ≡ h.reads j)
      → ((j : ℕ) → h'.writes j ≡ lowered i h.writes j)
      → Inv h' (update pc i (outside i))
  wrunlock-Inv own same less =
      moves (outside i) (λ j other. (same j, ground (arith, less j, other)))
        (refl, omega (arith, same i, own), ground (arith, less i, own))
        (λ j k apart has.
          let excluded : (h.reads k ≡ 0) × (h.writes k ≡ 0) =
            inv.excludes j k apart (ground (arith, less j, has)) in
          (omega (arith, same k, excluded), ground (arith, less k, excluded)))

  rdunlock-Inv :
      Agrees h i (reading i)
      → ((j : ℕ) → h'.reads j ≡ lowered i h.reads j)
      → ((j : ℕ) → h'.writes j ≡ h.writes j)
      → Inv h' (update pc i (outside i))
  rdunlock-Inv own less same =
      moves (outside i) (λ j other. (ground (arith, less j, other), same j))
        (refl, ground (arith, less i, own), omega (arith, same i, own))
        (λ j k apart has.
          let excluded : (h.reads k ≡ 0) × (h.writes k ≡ 0) =
            inv.excludes j k apart (omega (arith, same j, has)) in
          (ground (arith, less k, excluded), omega (arith, same k, excluded)))

failed : (error : ℕ) → (suc error == 0) ≡ false
failed error = ground arith

module _ {L : Type 0} (os : PthreadRwlock L) where
  abbrev SysInv : System L Pc → Type 0
  SysInv s = Inv (os.holds s.mem) s.pc

  module _ (s : System L Pc) (i : ℕ) (inv : SysInv s) where
    wrlock-Inv :
        (r : Option (ℕ × L))
        → Agrees (os.holds s.mem) i (outside i)
        → WritesIfAny os.holds i s.mem r
        → After SysInv s i (after_lock true r (writing i) aborted)
    wrlock-Inv none own gains = tt
    wrlock-Inv (some (zero, l)) own gains =
        writes-Inv (os.holds s.mem) (os.holds l) s.pc i inv (writing i) gains
          (λ none_read one_write. (refl, none_read, one_write))
    wrlock-Inv (some (suc error, l)) own gains =
        rw (failed error) (stays (os.holds s.mem) (os.holds l) s.pc i inv aborted gains tt)

    rdlock-Inv :
        (r : Option (ℕ × L))
        → Agrees (os.holds s.mem) i (outside i)
        → ReadsIfAny os.holds i s.mem r
        → After SysInv s i (after_lock true r (reading i) aborted)
    rdlock-Inv none own gains = tt
    rdlock-Inv (some (zero, l)) own gains =
        reads-Inv (os.holds s.mem) (os.holds l) s.pc i inv (reading i) gains
          (λ one_more none_write. (refl, omega (arith, one_more, own), none_write))
    rdlock-Inv (some (suc error, l)) own gains =
        rw (failed error) (stays (os.holds s.mem) (os.holds l) s.pc i inv aborted gains tt)

    trywrlock-Inv :
        (r : ℕ × L)
        → WritesIfAny os.holds i s.mem (some r)
        → After SysInv s i (after_lost_try r undefined)
    trywrlock-Inv (zero, l) gains =
        writes-Inv (os.holds s.mem) (os.holds l) s.pc i inv undefined gains (λ _ _. tt)
    trywrlock-Inv (suc error, l) gains =
        stays (os.holds s.mem) (os.holds l) s.pc i inv undefined gains tt

    tryrdlock-Inv :
        (r : ℕ × L)
        → ReadsIfAny os.holds i s.mem (some r)
        → After SysInv s i (after_lost_try r undefined)
    tryrdlock-Inv (zero, l) gains =
        reads-Inv (os.holds s.mem) (os.holds l) s.pc i inv undefined gains (λ _ _. tt)
    tryrdlock-Inv (suc error, l) gains =
        stays (os.holds s.mem) (os.holds l) s.pc i inv undefined gains tt

  outside-Inv :
      (s : System L Pc) (i : ℕ) (call : Call)
      → SysInv s
      → Agrees (os.holds s.mem) i (outside i)
      → After SysInv s i (step os true call s.mem (outside i))
  unfolding step
  outside-Inv s i lock inv own = wrlock-Inv s i inv (os.wrlock i s.mem) own (os.wrlock_law i s.mem)
  outside-Inv s i try_lock inv own =
      trywrlock-Inv s i inv (os.trywrlock i s.mem) (os.trywrlock_law i s.mem)
  outside-Inv s i lock_shared inv own =
      rdlock-Inv s i inv (os.rdlock i s.mem) own (os.rdlock_law i s.mem)
  outside-Inv s i try_lock_shared inv own =
      tryrdlock-Inv s i inv (os.tryrdlock i s.mem) (os.tryrdlock_law i s.mem)
  outside-Inv s i call inv own = tt

  writing-Inv :
      (s : System L Pc) (i : ℕ) (call : Call)
      → SysInv s
      → Agrees (os.holds s.mem) i (writing i)
      → After SysInv s i (step os true call s.mem (writing i))
  unfolding step
  writing-Inv s i unlock inv own =
      let law = os.wrunlock_law i s.mem (own.2) in
      rw (law.0)
        (wrunlock-Inv (os.holds s.mem) (os.holds (os.unlock i s.mem).1) s.pc i inv own law.1 law.2)
  writing-Inv s i call inv own = tt

  reading-Inv :
      (s : System L Pc) (i : ℕ) (call : Call)
      → SysInv s
      → Agrees (os.holds s.mem) i (reading i)
      → After SysInv s i (step os true call s.mem (reading i))
  unfolding step
  reading-Inv s i unlock_shared inv own =
      let law = os.rdunlock_law i s.mem (own.1) in
      rw (law.0)
        (rdunlock-Inv (os.holds s.mem) (os.holds (os.unlock i s.mem).1) s.pc i inv own law.1 law.2)
  reading-Inv s i call inv own = tt

  -- A thread's number is the one it has.
  step-Inv :
      (s : System L Pc) (i : ℕ) (call : Call) (p : Pc)
      → s.pc i ≡ p
      → SysInv s
      → After SysInv s i (step os true call s.mem p)
  unfolding step
  step-Inv s i call (outside who) stands inv =
      let own : Agrees (os.holds s.mem) i (outside who) =
        subst (Agrees (os.holds s.mem) i) stands (inv.agrees i) in
      subst (λ w. After SysInv s i (step os true call s.mem (outside w))) (sym (own.0))
        (outside-Inv s i call inv (refl, own.1, own.2))
  step-Inv s i call (writing who) stands inv =
      let own : Agrees (os.holds s.mem) i (writing who) =
        subst (Agrees (os.holds s.mem) i) stands (inv.agrees i) in
      subst (λ w. After SysInv s i (step os true call s.mem (writing w))) (sym (own.0))
        (writing-Inv s i call inv (refl, own.1, own.2))
  step-Inv s i call (reading who) stands inv =
      let own : Agrees (os.holds s.mem) i (reading who) =
        subst (Agrees (os.holds s.mem) i) stands (inv.agrees i) in
      subst (λ w. After SysInv s i (step os true call s.mem (reading w))) (sym (own.0))
        (reading-Inv s i call inv (refl, own.1, own.2))
  step-Inv s i lock aborted stands inv = tt
  step-Inv s i lock undefined stands inv = tt
  step-Inv s i try_lock aborted stands inv = tt
  step-Inv s i try_lock undefined stands inv = tt
  step-Inv s i unlock aborted stands inv = tt
  step-Inv s i unlock undefined stands inv = tt
  step-Inv s i lock_shared aborted stands inv = tt
  step-Inv s i lock_shared undefined stands inv = tt
  step-Inv s i try_lock_shared aborted stands inv = tt
  step-Inv s i try_lock_shared undefined stands inv = tt
  step-Inv s i unlock_shared aborted stands inv = tt
  step-Inv s i unlock_shared undefined stands inv = tt

  -- However `n` threads use an `os::rw_mutex` for writing and reading, with the assertions, over a
  -- system that does as documented: each thread that has neither failed an assertion nor come to the end
  -- of a try, which is undefined, holds exactly what its calls say; and where one thread holds the lock
  -- for writing no other holds it in any way.
  pub rw_mutex-Excludes :
      (n : ℕ) {s : System L Pc}
      → Reach (step os true) n (initial os) s
      → ((i : ℕ) → Agrees (os.holds s.mem) i (s.pc i)) × Excludes (os.holds s.mem)
  rw_mutex-Excludes n {s} r = (inv.agrees, inv.excludes)
    where
      inv : SysInv s
      inv =
          Reach-induction (step os true) SysInv n
            (λ u i call p f lt stands. step-Inv u i call p stands f)
            (record {
              agrees = λ i. (refl, (os.init_law i).0, (os.init_law i).1);
              excludes = λ i j apart has. os.init_law j;
            })
            r
